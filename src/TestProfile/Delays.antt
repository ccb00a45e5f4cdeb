-- ===== src/TestProfile/Delays.antt =====
-- The delay that pkg/dc2/testprofile/profile.go injects, as a sum.
use dc.Prelude.{
  ◌≡◌, refl, sym, ap, ◌∙◌, some, List, [], ◌∷◌, arith, inl, inr, Bool-cases, if◌then◌else◌,
}
use dc.Prelude.Int.{ℤ, pos, ◌+ℤ◌, wrap64, wrap64_id, wrap64-add_left, +ℤ_assoc}
use dc.TestProfile.{Rule, Profile, MatchInput, Hook, Phase, matches, delay_for, delay_loop, delay}

-- The exact sum of the delays of the rules that match.
abbrev pub total_delay : List Rule → Hook → Phase → MatchInput → ℤ
total_delay [] hook phase input = pos 0
total_delay (r ∷ rs) hook phase input =
    (if matches r input then delay_for r hook phase else pos 0) +ℤ total_delay rs hook phase input

add_zero : (a : ℤ) → a +ℤ pos 0 ≡ a
unfolding ◌+ℤ◌
add_zero a = ground arith

zero_add : (a : ℤ) → pos 0 +ℤ a ≡ a
unfolding ◌+ℤ◌
zero_add a = ground arith

delay_loop-total :
    (rs : List Rule) (hook : Hook) (phase : Phase) (input : MatchInput) (t : ℤ)
    → delay_loop rs hook phase input (wrap64 t) ≡ wrap64 (t +ℤ total_delay rs hook phase input)
unfolding delay_loop
delay_loop-total [] hook phase input t = rw (add_zero t) refl
delay_loop-total (r ∷ rs) hook phase input t = elim (Bool-cases (matches r input)) [
  | inl e ↦
      rw (e, total_delay)
        (ap (delay_loop rs hook phase input) (wrap64-add_left t (delay_for r hook phase))
          ∙ delay_loop-total rs hook phase input (t +ℤ delay_for r hook phase)
          ∙ ap wrap64 (+ℤ_assoc t _ _))
  | inr e ↦
      rw (e, total_delay, zero_add (total_delay rs hook phase input))
        (delay_loop-total rs hook phase input t)
]

-- The delay of a hook and a phase is the sum of the delays of all rules that match, kept as a
-- 64-bit integer.
pub delay_total :
    (p : Profile) (hook : Hook) (phase : Phase) (input : MatchInput)
    → delay (some p) hook phase input ≡ wrap64 (total_delay p.rules hook phase input)
unfolding delay
delay_total p hook phase input =
    ap (delay_loop p.rules hook phase input)
      (sym (wrap64_id (pos 0) (record { above = omega arith; below = omega arith })))
    ∙ delay_loop-total p.rules hook phase input (pos 0)
    ∙ ap wrap64 (zero_add _)
