-- ===== src/Dispatcher/Filters/Selection.antt =====
-- What applyFilters of pkg/dc2/dispatcher.go selects: the resources that satisfy every filter.
use mathlib.Core.Path.{subst}
use dc.Prelude.{
  String, ◌≡◌, refl, sym, ap, ◌∙◌, Bool, true, false, ◌&&◌, none, some, List, [], ◌∷◌, arith,
  contains, ◌==◌, eq_iff, if◌then◌else◌, All, inl, inr, ◌⊎◌, Option-cases, Bool-cases,
}
use dc.Prelude.Text.{after_prefix?}
use dc.Prelude.Sorting.{IsSorted}
use dc.Api.{ok, err, Result-cases}
use dc.Storage.{
  Storage, ResourceType, Attributes, insert, tag_prefix, find_key, tag_attribute_name,
  resource_attributes,
}
use dc.Storage.Maps.{lookup-insert}
use dc.Storage.Invariant.{IsValid}
use dc.Storage.Listing.{key_of, resource_attributes_lem}
use dc.Dispatcher.Tags.TagNames.{tag_key-name, find_key-Above}
use dc.Dispatcher.Filters.{
  Filter, AttributesOf, attributes_of, initial_ids, read_attributes, tag_hits, filter_by_tag,
  has_tag_key, filter_by_tag_key, filter_named, filter_once, filter_all, apply_filters,
}

-- The attributes of a resource of the store, none if it is missing.
abbrev pub stored : Storage → String → Attributes
stored s id = elim (resource_attributes s id) [ ok attrs ↦ attrs | err e ↦ [] ]

-- A resource has the tag with one of the values.
abbrev pub has_tag : String → List String → Attributes → Bool
has_tag key values attrs = elim (find_key attrs (tag_attribute_name key)) [
  | none ↦ false
  | some v ↦ contains values v
]

abbrev satisfies_named : String → List String → Attributes → Bool
satisfies_named name values attrs = elim (after_prefix? tag_prefix name) [
  | some key ↦ has_tag key values attrs
  | none ↦ name == "tag-key" && has_tag_key values attrs
]

-- A filter as a test on the attributes of a resource.
abbrev pub satisfies : Filter → Attributes → Bool
satisfies f attrs = elim f.name [
  | none ↦ false
  | some name ↦ elim f.values [ none ↦ false | some values ↦ satisfies_named name values attrs ]
]

abbrev pub satisfies_all : List Filter → Attributes → Bool
satisfies_all [] attrs = true
satisfies_all (f ∷ fs) attrs = satisfies f attrs && satisfies_all fs attrs

-- The elements that pass a test, in order.
abbrev pub keep : (String → Bool) → List String → List String
keep p [] = []
keep p (x ∷ xs) = let rest = keep p xs in if p x then x ∷ rest else rest

keep_ext :
    (p q : String → Bool) (xs : List String) → ((x : String) → p x ≡ q x) → keep p xs ≡ keep q xs
keep_ext p q [] h = refl
keep_ext p q (x ∷ xs) h = rw (h x, keep_ext p q xs h) refl

keep-keep :
    (p q : String → Bool) (xs : List String) → keep q (keep p xs) ≡ keep (λ x. p x && q x) xs
keep-keep p q [] = refl
keep-keep p q (x ∷ xs) = ground (arith, keep-keep p q xs)

keep-true : (xs : List String) → keep (λ x. true) xs ≡ xs
keep-true [] = refl
keep-true (x ∷ xs) = ap (x ∷◌) (keep-true xs)

tag_hits_once :
    (key : String) (values : List String) (id : String) (attrs : Attributes) (rest : List String)
    → IsSorted key_of attrs
    → tag_hits key values id attrs rest ≡ (if has_tag key values attrs then id ∷ rest else rest)
unfolding tag_hits find_key
tag_hits_once key values id [] rest s = refl
tag_hits_once key values id (a ∷ attrs) rest s = ground (
  arith,
  tag_key-name a key,
  eq_iff a.key (tag_attribute_name key),
  tag_hits_once key values id attrs rest s.1,
  find_key-Above a.key attrs s.0,
)

-- The map holds the sorted attributes that the store has for each of the ids.
abbrev Holds : Storage → AttributesOf → String → Type 0
Holds s m id = (attributes_of m id ≡ stored s id) × IsSorted key_of (stored s id)

stored-IsSorted : (s : Storage) (id : String) → IsValid s → IsSorted key_of (stored s id)
stored-IsSorted s id v = elim (Result-cases (resource_attributes s id)) [
  | inl (e, p) ↦ rw (p, stored) tt
  | inr (attrs, p) ↦ rw (p, stored) (resource_attributes_lem s id attrs v p).0
]

filter_by_tag-keep :
    (s : Storage) (m : AttributesOf) (key : String) (values ids : List String)
    → All (Holds s m) ids
    → filter_by_tag m key values ids ≡ keep (λ id. has_tag key values (stored s id)) ids
unfolding filter_by_tag
filter_by_tag-keep s m key values [] h = refl
filter_by_tag-keep s m key values (id ∷ ids) h =
    rw (h.0.0, filter_by_tag-keep s m key values ids h.1)
      (tag_hits_once key values id (stored s id) _ h.0.1)

filter_by_tag_key-keep :
    (s : Storage) (m : AttributesOf) (values ids : List String)
    → All (Holds s m) ids
    → filter_by_tag_key m values ids ≡ keep (λ id. has_tag_key values (stored s id)) ids
unfolding filter_by_tag_key
filter_by_tag_key-keep s m values [] h = refl
filter_by_tag_key-keep s m values (id ∷ ids) h =
    rw (h.0.0, filter_by_tag_key-keep s m values ids h.1) refl

filter_named-keep :
    (s : Storage) (m : AttributesOf) (name : String) (values ids out : List String)
    → All (Holds s m) ids
    → filter_named m name values ids ≡ ok out
    → out ≡ keep (λ id. satisfies_named name values (stored s id)) ids
unfolding filter_named
filter_named-keep s m name values ids out h e =
    elim (Option-cases (after_prefix? tag_prefix name)) [
      | inl p ↦ elim (Bool-cases (name == "tag-key")) [
        | inl q ↦
            let result : out ≡ filter_by_tag_key m values ids = ground (arith, e, p, q) in
            result
            ∙ filter_by_tag_key-keep s m values ids h
            ∙ keep_ext _ _ ids (λ id. rw (p, satisfies_named, q) refl)
        | inr q ↦ absurd (ground (arith, e, p, q))
      ]
      | inr (key, p) ↦
          let result : out ≡ filter_by_tag m key values ids = ground (arith, e, p) in
          result
          ∙ filter_by_tag-keep s m key values ids h
          ∙ keep_ext _ _ ids (λ id. rw (p, satisfies_named) refl)
    ]

filter_once-keep :
    (s : Storage) (m : AttributesOf) (f : Filter) (ids out : List String)
    → All (Holds s m) ids
    → filter_once m f ids ≡ ok out
    → out ≡ keep (λ id. satisfies f (stored s id)) ids
unfolding filter_once
filter_once-keep s m f ids out h e = elim (Option-cases f.name) [
  | inl p ↦ absurd (ground (arith, e, p))
  | inr (n, p) ↦ elim (Option-cases f.values) [
    | inl q ↦ absurd (ground (arith, e, p, q))
    | inr (vs, q) ↦
        filter_named-keep s m n vs ids out h (ground (arith, e, p, q))
        ∙ keep_ext _ _ ids (λ id. rw (p, q, satisfies) refl)
  ]
]

keep-Holds :
    (s : Storage) (m : AttributesOf) (p : String → Bool) (ids : List String)
    → All (Holds s m) ids
    → All (Holds s m) (keep p ids)
keep-Holds s m p [] h = tt
keep-Holds s m p (id ∷ ids) h = elim (Bool-cases (p id)) [
  | inl e ↦ rw (e, keep) (h.0, keep-Holds s m p ids h.1)
  | inr e ↦ rw (e, keep) (keep-Holds s m p ids h.1)
]

filter_all-keep :
    (s : Storage) (m : AttributesOf) (fs : List Filter) (ids out : List String)
    → All (Holds s m) ids
    → filter_all m fs ids ≡ ok out
    → out ≡ keep (λ id. satisfies_all fs (stored s id)) ids
unfolding filter_all
filter_all-keep s m [] ids out h e = ground (arith, e) ∙ sym (keep-true ids)
filter_all-keep s m (f ∷ fs) ids out h e = elim (Result-cases (filter_once m f ids)) [
  | inl (x, p) ↦ absurd (ground (arith, e, p))
  | inr (mid, p) ↦
      let q = filter_once-keep s m f ids mid h p in
      let h' : All (Holds s m) mid = rw q (keep-Holds s m _ ids h) in
      filter_all-keep s m fs mid out h' (ground (arith, e, p)) ∙ rw q (keep-keep _ _ ids)
]

attributes_of-insert :
    (id j : String) (attrs : Attributes) (m : AttributesOf)
    → attributes_of (insert id attrs m) j ≡ (if id == j then attrs else attributes_of m j)
attributes_of-insert id j attrs m = ground (arith, lookup-insert id j attrs m)

insert-Holds :
    (s : Storage) (m : AttributesOf) (id j : String) (attrs : Attributes)
    → IsValid s
    → resource_attributes s id ≡ ok attrs
    → (id ≡ j) ⊎ Holds s m j
    → Holds s (insert id attrs m) j
insert-Holds s m id j attrs v p given = elim (Bool-cases (id == j)) [
  | inl e ↦
      let same : stored s j ≡ attrs = rw (sym ((eq_iff id j).0 e), p, stored) refl in
      (attributes_of-insert id j attrs m ∙ rw (e, same) refl, stored-IsSorted s j v)
  | inr e ↦ elim given [
    | inl q ↦ absurd (ground (arith, e, eq_iff id j, q))
    | inr h ↦ (attributes_of-insert id j attrs m ∙ rw e h.0, h.1)
  ]
]

read_attributes-keeps :
    (s : Storage) (ids : List String) (m out : AttributesOf) (j : String)
    → IsValid s
    → read_attributes s ids m ≡ ok out
    → Holds s m j
    → Holds s out j
unfolding read_attributes
read_attributes-keeps s [] m out j v e h = subst (λ x. Holds s x j) (ground (arith, e)) h
read_attributes-keeps s (id ∷ ids) m out j v e h = elim (Result-cases (resource_attributes s id)) [
  | inl (x, p) ↦ absurd (ground (arith, e, p))
  | inr (attrs, p) ↦
      read_attributes-keeps s ids (insert id attrs m) out j v (ground (arith, e, p))
        (insert-Holds s m id j attrs v p (inr h))
]

read_attributes-Holds :
    (s : Storage) (ids : List String) (m out : AttributesOf)
    → IsValid s
    → read_attributes s ids m ≡ ok out
    → All (Holds s out) ids
unfolding read_attributes
read_attributes-Holds s [] m out v e = tt
read_attributes-Holds s (id ∷ ids) m out v e = elim (Result-cases (resource_attributes s id)) [
  | inl (x, p) ↦ absurd (ground (arith, e, p))
  | inr (attrs, p) ↦
      let e' : read_attributes s ids (insert id attrs m) ≡ ok out = ground (arith, e, p) in
      (
        read_attributes-keeps s ids _ out id v e' (insert-Holds s m id id attrs v p (inl refl)),
        read_attributes-Holds s ids _ out v e',
      )
]

-- What the filters select when they are accepted: those of the ids of the request (or of all
-- resources of the type if it names none) whose attributes satisfy every filter, in that order.
pub apply_filters-keep :
    (s : Storage) (rt : ResourceType) (ids : List String) (fs : List Filter) (out : List String)
    → IsValid s
    → apply_filters s rt ids fs ≡ ok out
    → out ≡ keep (λ id. satisfies_all fs (stored s id)) (initial_ids s rt ids)
unfolding apply_filters
apply_filters-keep s rt ids fs out v e =
    elim (Result-cases (read_attributes s (initial_ids s rt ids) [])) [
      | inl (x, p) ↦ absurd (ground (arith, e, p))
      | inr (m, p) ↦
          filter_all-keep s m fs (initial_ids s rt ids) out
            (read_attributes-Holds s (initial_ids s rt ids) [] m v p) (ground (arith, e, p))
    ]
