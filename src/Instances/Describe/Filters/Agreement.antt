-- ===== src/Instances/Describe/Filters/Agreement.antt =====
-- applyInstanceFilters and instanceMatchesAllFilters of pkg/dc2/dispatcher_instance.go select the same
-- instances.
use dc.Prelude.{
  String, ◌≡◌, refl, sym, ap, ◌∙◌, Bool, true, false, ◌&&◌, some, List, [], ◌∷◌, arith, inl, inr,
  Bool-cases, Option-cases, All, if◌then◌else◌,
}
use mathlib.Core.Path.{subst}
use dc.Api.{ok, err, Result-cases}
use dc.Dispatcher.Filters.{Filter}
use dc.Instances.Describe.{Instance}
use dc.Instances.Describe.Filters.{
  is_supported_instance_filter, filter_on_tags, split_instance_filters, matches_named,
  instance_matches_filter, instance_matches_all_filters, apply_filter, apply_instance_filters,
}

-- Whether a filter that gives an answer keeps the instance.
abbrev keeps : Filter → Instance → Bool
keeps f i = elim (instance_matches_filter i f) [ err e ↦ false | ok b ↦ b ]

abbrev pub keeps_all : List Filter → Instance → Bool
keeps_all [] i = true
keeps_all (f ∷ fs) i = keeps f i && keeps_all fs i

abbrev pub selected : (Instance → Bool) → List Instance → List Instance
selected p [] = []
selected p (i ∷ is) = let rest = selected p is in if p i then i ∷ rest else rest

abbrev Decides : Filter → Type 0
Decides f = (i : Instance) → instance_matches_filter i f ≡ ok (keeps f i)

matches_named_ok :
    (i : Instance) (name : String) (values : List String)
    → is_supported_instance_filter name ≡ true
    → (b : Bool) × (matches_named i name values ≡ ok b)
unfolding is_supported_instance_filter matches_named
matches_named_ok i name values h = elim (Result-cases (matches_named i name values)) [
  | inl (e, p) ↦ absurd (ground (arith, h, p))
  | inr r ↦ r
]

keeps_lem :
    (f : Filter) (i : Instance) (b : Bool)
    → instance_matches_filter i f ≡ ok b
    → instance_matches_filter i f ≡ ok (keeps f i)
keeps_lem f i b p = rw (p, keeps) refl

supported :
    (name : String) (f : Filter) (values : List String)
    → f.name ≡ some name
    → f.values ≡ some values
    → filter_on_tags f ≡ ok false
    → is_supported_instance_filter name ≡ true
unfolding filter_on_tags
supported name f values p q h = ground (arith, h, p, q)

filter_on_tags-Decides : (f : Filter) → filter_on_tags f ≡ ok false → Decides f
unfolding filter_on_tags instance_matches_filter
filter_on_tags-Decides f h i = elim (Option-cases f.name) [
  | inl e ↦ absurd (ground (arith, h, e))
  | inr (name, p) ↦ elim (Option-cases f.values) [
    | inl e ↦ absurd (ground (arith, h, e, p))
    | inr (values, q) ↦
        let (b, r) = matches_named_ok i name values (supported name f values p q h) in
        keeps_lem f i b (rw (p, instance_matches_filter, q) r)
  ]
]

split-Decides : (fs ts gs : List Filter) → split_instance_filters fs ≡ ok (ts, gs) → All Decides gs
unfolding split_instance_filters
split-Decides [] ts gs h =
    let same : ◌≡◌ {A = List Filter} [] gs = ground (arith, h) in subst (All Decides) same tt
split-Decides (f ∷ fs) ts gs h = elim (Result-cases (filter_on_tags f)) [
  | inl (e, p) ↦ absurd (ground (arith, h, p))
  | inr (b, p) ↦ elim (Result-cases (split_instance_filters fs)) [
    | inl (e, q) ↦ absurd (ground (arith, h, p, q))
    | inr ((us, hs), q) ↦ elim (Bool-cases b) [
      | inl e ↦
          let same : hs ≡ gs = ground (arith, h, p, q, e) in
          subst (All Decides) same (split-Decides fs us hs q)
      | inr e ↦
          let same : f ∷ hs ≡ gs = ground (arith, h, p, q, e) in
          subst (All Decides) same
            (filter_on_tags-Decides f (p ∙ ap ok e), split-Decides fs us hs q)
    ]
  ]
]

answers_every :
    (gs : List Filter) (i : Instance)
    → All Decides gs
    → instance_matches_all_filters i gs ≡ ok (keeps_all gs i)
unfolding instance_matches_all_filters
answers_every [] i d = refl
answers_every (g ∷ gs) i (d, ds) = elim (Bool-cases (keeps g i)) [
  | inl e ↦ rw (d i ∙ ap ok e, e, instance_matches_all_filters) (answers_every gs i ds)
  | inr e ↦ rw (d i ∙ ap ok e, e, instance_matches_all_filters) refl
]

apply_filter_ok :
    (g : Filter) (is : List Instance) → Decides g → apply_filter g is ≡ ok (selected (keeps g) is)
unfolding apply_filter
apply_filter_ok g [] d = refl
apply_filter_ok g (i ∷ is) d = rw (d i, apply_filter_ok g is d, apply_filter) refl

selected_twice :
    (g : Filter) (gs : List Filter) (is : List Instance)
    → selected (keeps_all gs) (selected (keeps g) is) ≡ selected (keeps_all (g ∷ gs)) is
selected_twice g gs [] = refl
selected_twice g gs (i ∷ is) = elim (Bool-cases (keeps g i)) [
  | inl e ↦ ground (arith, e, selected_twice g gs is)
  | inr e ↦ ground (arith, e, selected_twice g gs is)
]

selected_all : (is : List Instance) → selected (keeps_all []) is ≡ is
selected_all [] = refl
selected_all (i ∷ is) = ap (λ (js : List Instance). i ∷ js) (selected_all is)

apply_ok :
    (gs : List Filter) (is : List Instance)
    → All Decides gs
    → apply_instance_filters is gs ≡ ok (selected (keeps_all gs) is)
unfolding apply_instance_filters
apply_ok [] is d = ap ok (sym (selected_all is))
apply_ok (g ∷ gs) is (d, ds) =
    rw (apply_filter_ok g is d, apply_instance_filters)
      (apply_ok gs (selected (keeps g) is) ds ∙ ap ok (selected_twice g gs is))

-- With the filters that splitInstanceFilters takes out for the instances, neither walk fails:
-- instanceMatchesAllFilters answers for every instance whether each filter keeps it, and
-- applyInstanceFilters returns, in their order, exactly the instances for which it answers true.
pub apply_instance_filters-matches :
    (fs ts gs : List Filter) (is : List Instance)
    → split_instance_filters fs ≡ ok (ts, gs)
    → ((i : Instance) → instance_matches_all_filters i gs ≡ ok (keeps_all gs i))
      × (apply_instance_filters is gs ≡ ok (selected (keeps_all gs) is))
apply_instance_filters-matches fs ts gs is h =
    let d = split-Decides fs ts gs h in (λ i. answers_every gs i d, apply_ok gs is d)
