-- ===== src/TestProfile/Reclaims.antt =====
-- The spot reclaim that pkg/dc2/testprofile/profile.go configures.
use mathlib.Core.Path.{subst}
use dc.Prelude.{
  true, false, sym, Bool, ◌≡◌, refl, ◌∙◌, Option, none, some, List, [], ◌∷◌, arith, inl, inr,
  Bool-cases, if◌then◌else◌,
}
use dc.Prelude.Int.{ℤ, pos, ◌≤ℤ◌}
use dc.Api.{Result-cases, ok}
use dc.TestProfile.{
  validate, validate_rules, Rule, Profile, MatchInput, SpotReclaim, matches, reclaim_loop,
  spot_reclaim, override, validate_rule,
}

-- The value of a field in the last rule that matches and sets it.
abbrev pub last_set : (Rule → Option ℤ) → List Rule → MatchInput → Option ℤ
last_set field [] input = none
last_set field (r ∷ rs) input =
    override (last_set field rs input) (if matches r input then field r else none)

override_assoc : (a b c : Option ℤ) → override a (override b c) ≡ override (override a b) c
override_assoc none b c = refl
override_assoc (some d) b c = refl

override-none : (a : Option ℤ) → override a none ≡ a
override-none none = refl
override-none (some d) = refl

reclaim_loop-after :
    (rs : List Rule) (input : MatchInput) (out : SpotReclaim)
    → (reclaim_loop rs input out).after
      ≡ override (last_set (λ r. r.spot_reclaim.after) rs input) out.after
unfolding reclaim_loop
reclaim_loop-after [] input out = refl
reclaim_loop-after (r ∷ rs) input out =
    reclaim_loop-after rs input _ ∙ elim (Bool-cases (matches r input)) [
      | inl e ↦ rw (e, last_set) (override_assoc _ r.spot_reclaim.after out.after)
      | inr e ↦ rw (e, last_set, override-none) refl
    ]

reclaim_loop-notice :
    (rs : List Rule) (input : MatchInput) (out : SpotReclaim)
    → (reclaim_loop rs input out).notice
      ≡ override (last_set (λ r. r.spot_reclaim.notice) rs input) out.notice
unfolding reclaim_loop
reclaim_loop-notice [] input out = refl
reclaim_loop-notice (r ∷ rs) input out =
    reclaim_loop-notice rs input _ ∙ elim (Bool-cases (matches r input)) [
      | inl e ↦ rw (e, last_set) (override_assoc _ r.spot_reclaim.notice out.notice)
      | inr e ↦ rw (e, last_set, override-none) refl
    ]

-- Each field of the configuration comes from the last rule that matches and sets it, on its own.
pub spot_reclaim-last_set :
    (p : Profile) (input : MatchInput)
    → ((spot_reclaim (some p) input).after ≡ last_set (λ r. r.spot_reclaim.after) p.rules input)
      × ((spot_reclaim (some p) input).notice ≡ last_set (λ r. r.spot_reclaim.notice) p.rules input)
unfolding spot_reclaim
spot_reclaim-last_set p input = (
  reclaim_loop-after p.rules input _ ∙ override-none _,
  reclaim_loop-notice p.rules input _ ∙ override-none _,
)

-- Not negative, where it is set.
abbrev pub IsNatural : Option ℤ → Type 0
IsNatural none = Unit
IsNatural (some d) = pos 0 ≤ℤ d

override-IsNatural : (a b : Option ℤ) → IsNatural a → IsNatural b → IsNatural (override a b)
override-IsNatural none b p q = q
override-IsNatural (some d) b p q = p

validate_rule-IsNatural :
    (r : Rule)
    → validate_rule r ≡ ok tt
    → IsNatural r.spot_reclaim.after × IsNatural r.spot_reclaim.notice
unfolding validate_rule
validate_rule-IsNatural r h = ground arith

if-IsNatural : (b : Bool) (a : Option ℤ) → IsNatural a → IsNatural (if b then a else none)
if-IsNatural true a p = p
if-IsNatural false a p = tt

last_set-IsNatural :
    (rs : List Rule) (input : MatchInput)
    → validate_rules rs ≡ ok tt
    → IsNatural (last_set (λ r. r.spot_reclaim.after) rs input)
      × IsNatural (last_set (λ r. r.spot_reclaim.notice) rs input)
unfolding validate_rules
last_set-IsNatural [] input h = (tt, tt)
last_set-IsNatural (r ∷ rs) input h = elim (Result-cases (validate_rule r)) [
  | inl (x, p) ↦ absurd (ground (arith, h, p))
  | inr (tt, p) ↦
      let one = validate_rule-IsNatural r p in
      let rest = last_set-IsNatural rs input (ground (arith, h, p)) in
      (
        override-IsNatural _ _ rest.0 (if-IsNatural (matches r input) _ one.0),
        override-IsNatural _ _ rest.1 (if-IsNatural (matches r input) _ one.1),
      )
]

-- A profile that is accepted never configures a negative time.
pub spot_reclaim-IsNatural :
    (p : Profile) (input : MatchInput)
    → validate p ≡ ok tt
    → IsNatural (spot_reclaim (some p) input).after × IsNatural (spot_reclaim (some p) input).notice
unfolding validate
spot_reclaim-IsNatural p input h =
    let (a, n) = last_set-IsNatural p.rules input (ground (arith, h)) in
    let (e, f) = spot_reclaim-last_set p input in
    (subst IsNatural (sym e) a, subst IsNatural (sym f) n)
