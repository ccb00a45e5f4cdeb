-- ===== src/Dispatcher/Tags/Sync.antt =====
-- After a tag handler of pkg/dc2/dispatcher.go succeeds, the metadata service has the tags that the
-- store has.
use Prim.Native.String.{◌++◌}
use mathlib.Core.Path.{subst}
use dc.Prelude.{
  length, ltb, String, ◌≡◌, refl, sym, ap, ◌∙◌, false, Option, none, some, List, [], ◌∷◌, map,
  arith, ◌==◌, eq_iff, eq_false, eq_refl, if◌then◌else◌, All, inl, inr, ◌⊎◌, Option-cases,
  Bool-cases,
}
use dc.Prelude.Text.{after_prefix?, after_prefix?-eq-some}
use dc.Prelude.Sorting.{IsSorted}
use dc.Api.{Error, wrapped, Result-cases, Result, ok, err}
use dc.Api.Exec
use dc.Api.Exec.{Exec, then-ok, then-cases, ◌>>◌, fail_if}
use dc.Storage.{
  Storage, Attribute, Attributes, lookup, insert, tag_key, tag_attribute_name, find_key,
  set_resource_attributes, remove_resource_attributes, resource_attributes,
}
use dc.Storage.Maps.{lookup-insert, lookup-delete}
use dc.Storage.Invariant.{
  IsValid, set_resource_attributes-IsValid, remove_resource_attributes-IsValid,
}
use dc.Storage.Listing.{key_of, field_of, resource_attributes_lem}
use dc.Imds.{Imds, set_tags, tags}
use dc.Dispatcher.{instance_id_prefix}
use dc.Dispatcher.Tags.TagNames.{
  find_key-Above, is_tag-cases, is_tag-name, tag_attribute_name-injective,
}
use dc.Dispatcher.Tags.{
  State, in_storage, TagsRequest, tag_request_count_limit, tag_attribute, each_resource, add_tags,
  set_imds_tags, sync_imds_tags_for, sync_imds_tags, change_tags, dispatch_create_tags,
  dispatch_delete_tags,
}

tags-set_tags :
    (c d : String) (ts : List (String × String)) (s : Imds)
    → tags (set_tags c ts s) d ≡ (if c == d then ts else tags s d)
unfolding tags set_tags
tags-set_tags c d [] s = ground (arith, lookup-delete c d s.instance_tags)
tags-set_tags c d (t ∷ ts) s = ground (arith, lookup-insert c d (t ∷ ts) s.instance_tags)

abbrev or_lookup : Option String → Option String → Option String
or_lookup none o = o
or_lookup (some v) o = some v

lookup-add_tags :
    (attrs : Attributes) (m : List (String × String)) (k : String)
    → IsSorted key_of attrs
    → lookup k (add_tags attrs m) ≡ or_lookup (find_key attrs (tag_attribute_name k)) (lookup k m)
unfolding add_tags find_key
lookup-add_tags [] m k s = refl
lookup-add_tags (a ∷ attrs) m k s = elim (is_tag-cases a) [
  | inl e ↦
      let other : (a.key == tag_attribute_name k) ≡ false =
        eq_false _ _
          (λ (h : a.key ≡ tag_attribute_name k). absurd (ground (arith, e, is_tag-name a k h))) in
      rw (e, other) (lookup-add_tags attrs m k s.1)
  | inr (e, n) ↦ rw e (
      lookup-add_tags attrs (insert (tag_key a) a.value m) k s.1
      ∙ ground (
        arith,
        lookup-insert (tag_key a) k a.value m,
        eq_iff (tag_key a) k,
        eq_iff a.key (tag_attribute_name k),
        ap tag_attribute_name {x = tag_key a} {y = k},
        tag_attribute_name-injective (tag_key a) k,
        n,
        find_key-Above a.key attrs s.0,
      ))
]

-- The metadata service has the tags of a resource of the store, if it is an instance.
abbrev pub IsSynced : State → String → Type 0
IsSynced s id =
    (runtime_id : String)
    → after_prefix? instance_id_prefix id ≡ some runtime_id
    → (k : String)
    → lookup k (tags s.imds runtime_id)
      ≡ field_of (lookup id s.storage.resources) (tag_attribute_name k)

abbrev with_tags : String → Attributes → State → State
with_tags runtime_id attrs s = record s { imds = set_tags runtime_id (add_tags attrs []) s.imds }

-- One turn of the loop: nothing for what is no instance, an error, or new tags.
abbrev Turn : String → State → Type 0
Turn id s =
    ((after_prefix? instance_id_prefix id ≡ none) × (sync_imds_tags_for id s ≡ (s, ok tt)))
    ⊎ ((e : Error) × (sync_imds_tags_for id s ≡ (s, err e)))
    ⊎ ((r : String) × (attrs : Attributes) × (after_prefix? instance_id_prefix id ≡ some r)
        × (resource_attributes s.storage id ≡ ok attrs)
        × (sync_imds_tags_for id s ≡ (with_tags r attrs s, ok tt)))

turn : (id : String) (s : State) → Turn id s
unfolding sync_imds_tags_for set_imds_tags
turn id s = elim (Option-cases (after_prefix? instance_id_prefix id)) [
  | inl e ↦ inl (e, rw (e, sync_imds_tags_for) refl)
  | inr (r, e) ↦ elim (Result-cases (resource_attributes s.storage id)) [
    | inl (x, p) ↦ inr (inl (wrapped x, rw (e, sync_imds_tags_for, p) refl))
    | inr (attrs, p) ↦ inr (inr (r, attrs, e, p, rw (e, sync_imds_tags_for, p) refl))
  ]
]

turn-storage : (id : String) (s : State) → (sync_imds_tags_for id s).0.storage ≡ s.storage
turn-storage id s = elim (turn id s) [
  | inl (e, p) ↦ rw p refl
  | inr (inl (e, p)) ↦ rw p refl
  | inr (inr (r, attrs, e, q, p)) ↦ rw p refl
]

or_lookup-none : (o : Option String) → or_lookup o none ≡ o
or_lookup-none none = refl
or_lookup-none (some v) = refl

lookup-synced :
    (id : String) (attrs : Attributes) (s : Storage) (k : String)
    → IsValid s
    → resource_attributes s id ≡ ok attrs
    → lookup k (add_tags attrs []) ≡ field_of (lookup id s.resources) (tag_attribute_name k)
unfolding lookup
lookup-synced id attrs s k v q =
    let (sorted, found) = resource_attributes_lem s id attrs v q in
    lookup-add_tags attrs [] k sorted ∙ or_lookup-none _ ∙ found (tag_attribute_name k)

-- The turn of an instance, for itself and for every resource whose tags are right already.
with_tags-IsSynced :
    (id j r : String) (attrs : Attributes) (s : State)
    → IsValid s.storage
    → after_prefix? instance_id_prefix id ≡ some r
    → resource_attributes s.storage id ≡ ok attrs
    → (id ≡ j) ⊎ IsSynced s j
    → IsSynced (with_tags r attrs s) j
with_tags-IsSynced id j r attrs s v e q given r' e' k = elim (Bool-cases (r == r')) [
  | inl same ↦
      let j_id : id ≡ j =
        after_prefix?-eq-some instance_id_prefix id r e
        ∙ ap (instance_id_prefix ++◌) ((eq_iff r r').0 same)
        ∙ sym (after_prefix?-eq-some instance_id_prefix j r' e') in
      rw (tags-set_tags r r' (add_tags attrs []) s.imds, same, sym j_id)
        (lookup-synced id attrs s.storage k v q)
  | inr other ↦ elim given [
    | inl p ↦
        absurd (ground (arith, e, e', ap (after_prefix? instance_id_prefix) p, other, eq_refl r))
    | inr sj ↦ rw (tags-set_tags r r' (add_tags attrs []) s.imds, other) (sj r' e' k)
  ]
]

sync_imds_tags_for-IsSynced :
    (id j : String) (s : State)
    → IsValid s.storage
    → (sync_imds_tags_for id s).1 ≡ ok tt
    → (id ≡ j) ⊎ IsSynced s j
    → IsSynced (sync_imds_tags_for id s).0 j
sync_imds_tags_for-IsSynced id j s v h given = elim (turn id s) [
  | inl (e, p) ↦
      rw p (elim given [ inl same ↦ λ r e' k. absurd (ground (arith, e, e', same)) | inr sj ↦ sj ])
  | inr (inl (e, p)) ↦ absurd (ground (arith, h, p))
  | inr (inr (r, attrs, e, q, p)) ↦ rw p (with_tags-IsSynced id j r attrs s v e q given)
]

sync_imds_tags-keeps :
    (ids : List String) (j : String) (s : State)
    → IsValid s.storage
    → (sync_imds_tags ids s).1 ≡ ok tt
    → IsSynced s j
    → IsSynced (sync_imds_tags ids s).0 j
unfolding sync_imds_tags
sync_imds_tags-keeps [] j s v h sj = sj
sync_imds_tags-keeps (id ∷ ids) j s v h sj =
    let (one, rest) = then-ok (sync_imds_tags_for id) (sync_imds_tags ids) s tt h in
    let v' : IsValid (sync_imds_tags_for id s).0.storage = rw (turn-storage id s) v in
    rw rest (
      sync_imds_tags-keeps ids j _ v' (sym (ap (λ (r : State × Result (Unit {0})). r.1) rest) ∙ h)
        (sync_imds_tags_for-IsSynced id j s v one (inr sj)))

sync_imds_tags-IsSynced :
    (ids : List String) (s : State)
    → IsValid s.storage
    → (sync_imds_tags ids s).1 ≡ ok tt
    → All (IsSynced (sync_imds_tags ids s).0) ids
unfolding sync_imds_tags
sync_imds_tags-IsSynced [] s v h = tt
sync_imds_tags-IsSynced (id ∷ ids) s v h =
    let (one, rest) = then-ok (sync_imds_tags_for id) (sync_imds_tags ids) s tt h in
    let v' : IsValid (sync_imds_tags_for id s).0.storage = rw (turn-storage id s) v in
    let h' = sym (ap (λ (r : State × Result (Unit {0})). r.1) rest) ∙ h in
    subst (λ (x : State × Result (Unit {0})). All (IsSynced x.0) (id ∷ ids)) (sym rest)
      (
        sync_imds_tags-keeps ids id _ v' h' (sync_imds_tags_for-IsSynced id id s v one (inl refl)),
        sync_imds_tags-IsSynced ids _ v' h',
      )

each_resource-IsValid :
    (f : String → Exec Storage (Unit {0})) (ids : List String) (s : Storage)
    → ((id : String) (t : Storage) → IsValid t → IsValid (f id t).0)
    → IsValid s
    → IsValid (each_resource f ids s).0
unfolding each_resource
each_resource-IsValid f [] s keep v = v
each_resource-IsValid f (id ∷ ids) s keep v =
    elim (then-cases (Exec.wrap (f id)) (each_resource f ids) s) [
      | inl (e, p, q) ↦ rw q (keep id s v)
      | inr (p, q) ↦ rw q (each_resource-IsValid f ids _ keep (keep id s v))
    ]

abbrev Change : Type 0
Change = String → List Attribute → Exec Storage (Unit {0})

abbrev KeepsValid : Change → Type 0
KeepsValid change =
    (id : String) (attrs : List Attribute) (s : Storage) → IsValid s → IsValid (change id attrs s).0

abbrev write : Change → TagsRequest → Exec State (Unit {0})
write change r =
    in_storage (each_resource (λ id. change id (map tag_attribute r.tags)) r.resource_ids)

-- A request that succeeds has passed both checks.
change_tags-ok :
    (change : Change) (r : TagsRequest) (s : State)
    → (change_tags change r s).1 ≡ ok tt
    → change_tags change r s ≡ (write change r >> sync_imds_tags r.resource_ids) s
unfolding change_tags
change_tags-ok change r s h = elim (Bool-cases (ltb tag_request_count_limit (length r.tags))) [
  | inl e ↦ absurd (ground (arith, h, e))
  | inr e ↦ elim (Bool-cases r.dry_run) [
    | inl d ↦ absurd (ground (arith, h, e, d))
    | inr d ↦ rw (e, d, change_tags) refl
  ]
]

abbrev Outcome : Type 0
Outcome = State × Result (Unit {0})

change_tags-IsSynced :
    (change : Change) (r : TagsRequest) (s : State)
    → KeepsValid change
    → IsValid s.storage
    → (change_tags change r s).1 ≡ ok tt
    → All (IsSynced (change_tags change r s).0) r.resource_ids
change_tags-IsSynced change r s keep v h =
    let p = change_tags-ok change r s h in
    let (done, q) =
      then-ok (write change r) (sync_imds_tags r.resource_ids) s tt
        (sym (ap (λ (x : Outcome). x.1) p) ∙ h) in
    let h' = sym (ap (λ (x : Outcome). x.1) (p ∙ q)) ∙ h in
    subst (λ (x : Outcome). All (IsSynced x.0) r.resource_ids) (sym (p ∙ q))
      (sync_imds_tags-IsSynced r.resource_ids _
        (each_resource-IsValid _ r.resource_ids s.storage
          (λ id t. keep id (map tag_attribute r.tags) t) v)
        h')

-- When CreateTags succeeds, the metadata service serves, for every instance of the request, exactly
-- the tags that the store holds for it.
pub dispatch_create_tags-IsSynced :
    (r : TagsRequest) (s : State)
    → IsValid s.storage
    → (dispatch_create_tags r s).1 ≡ ok tt
    → All (IsSynced (dispatch_create_tags r s).0) r.resource_ids
unfolding dispatch_create_tags
dispatch_create_tags-IsSynced r s =
    change_tags-IsSynced set_resource_attributes r s set_resource_attributes-IsValid

-- When DeleteTags succeeds, the metadata service serves, for every instance of the request, exactly
-- the tags that the store still holds for it.
pub dispatch_delete_tags-IsSynced :
    (r : TagsRequest) (s : State)
    → IsValid s.storage
    → (dispatch_delete_tags r s).1 ≡ ok tt
    → All (IsSynced (dispatch_delete_tags r s).0) r.resource_ids
unfolding dispatch_delete_tags
dispatch_delete_tags-IsSynced r s =
    change_tags-IsSynced remove_resource_attributes r s remove_resource_attributes-IsValid
