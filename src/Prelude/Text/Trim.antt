-- ===== src/Prelude/Text/Trim.antt =====
-- What strings.TrimSpace leaves: nothing, or a text that starts with a character that is no space.
use Prim.Native.String.{◌++◌, [], ◌∷◌}
use Prim.Native.String.append
use mathlib.Core.Path.{subst}
use dc.Prelude.{
  String, ◌≡◌, refl, sym, ap, ◌∙◌, ◌⊎◌, inl, inr, Bool, true, false, not, arith, ◌==◌, eq_iff,
  Bool-cases,
}
use dc.Prelude.Text.{is_space, trim_left, trim_right, trim_space, is_nil}

-- The text starts with a character that is no space.
pub is_dark : String → Bool
is_dark [] = false
is_dark (c ∷ s) = not (is_space c)

trim_left-is_dark : (s : String) → (trim_left s ≡ "") ⊎ (is_dark (trim_left s) ≡ true)
unfolding trim_left is_dark
trim_left-is_dark [] = inl refl
trim_left-is_dark (c ∷ s) = elim (Bool-cases (is_space c)) [
  | inl e ↦ rw e (trim_left-is_dark s)
  | inr e ↦ inr (rw (e, is_dark) (rw e refl))
]

trim_right-is_dark : (s : String) → is_dark s ≡ true → is_dark (trim_right s) ≡ true
unfolding trim_right is_dark
trim_right-is_dark [] h = h
trim_right-is_dark (c ∷ s) h = ground (arith, h)

is_dark-trim_left : (s : String) → is_dark s ≡ true → trim_left s ≡ s
unfolding trim_left is_dark
is_dark-trim_left [] h = refl
is_dark-trim_left (c ∷ s) h = ground (arith, h)

pub is_dark-ne_empty : (s : String) → is_dark s ≡ true → (s == "") ≡ false
unfolding is_dark
is_dark-ne_empty [] h = absurd (ground (arith, h))
is_dark-ne_empty (c ∷ s) h = elim (Bool-cases ((c ∷ s) == "")) [
  | inl e ↦ absurd (ground (arith, ap is_nil ((eq_iff (c ∷ s) "").0 e)))
  | inr e ↦ e
]

pub is_dark-append : (s t : String) → is_dark s ≡ true → is_dark (s ++ t) ≡ true
unfolding is_dark
is_dark-append [] t h = absurd (ground (arith, h))
is_dark-append (c ∷ s) t h = rw (append.cons c s t) h

-- A text that is trimmed and not empty is dark.
pub trim_space-fixed_is_dark :
    (s : String) → trim_space s ≡ s → (s == "") ≡ false → is_dark s ≡ true
unfolding trim_space trim_right
trim_space-fixed_is_dark s h e = elim (trim_left-is_dark s) [
  | inl p ↦ absurd (ground (arith, e, (eq_iff s "").1 (sym h ∙ ap trim_right p)))
  | inr p ↦ subst (λ t. is_dark t ≡ true) h (trim_right-is_dark (trim_left s) p)
]

-- A dark text does not vanish.
pub trim_space-ne_empty : (s : String) → is_dark s ≡ true → (trim_space s == "") ≡ false
unfolding trim_space
trim_space-ne_empty s h =
    rw (is_dark-trim_left s h) (is_dark-ne_empty (trim_right s) (trim_right-is_dark s h))
