-- ===== src/Storage/Listing.antt =====
-- What the listings of memory.go return: sorted, complete, and the same for every order in which a
-- Go map may be walked.
use mathlib.Core.Path.{subst}
use dc.Prelude.{
  String, ◌≡◌, refl, sym, ap, ◌∙◌, Option, none, some, List, [], ◌∷◌, map, arith, eq_iff,
  if◌then◌else◌, inl, inr, Option-cases,
}
use dc.Prelude.Sorting.{
  IsSorted, IsDistinct, Fresh, find_by, sort_by-IsSorted, find_by-sort_by, sorted_ext,
}
use dc.Api.{ok}
use dc.Storage.{
  ResourceType, Resource, Attribute, Attributes, ResourceStorage, Storage, lookup, same_type,
  collect, registered_resources, to_attribute, attributes_list, resource_attributes, find_key,
}
use dc.Storage.Maps.{IsMap, Misses, lookup-Misses, lookup-AllValues}
use dc.Storage.Invariant.{IsValid, HasDistinctKeys}

abbrev pub id_of : Resource → String
id_of r = r.id

abbrev pub key_of : Attribute → String
key_of a = a.key

collect-Fresh :
    (rt : ResourceType) (k : String) (m : List (String × ResourceStorage))
    → Misses k m
    → Fresh id_of k (collect rt m)
unfolding collect
collect-Fresh rt k [] f = tt
collect-Fresh rt k ((id, x) ∷ m) f = ground (arith, collect-Fresh rt k m f.1)

collect-IsDistinct :
    (rt : ResourceType) (m : List (String × ResourceStorage))
    → IsMap m
    → IsDistinct id_of (collect rt m)
unfolding collect
collect-IsDistinct rt [] d = tt
collect-IsDistinct rt ((id, x) ∷ m) d =
    ground (arith, collect-Fresh rt id m d.0, collect-IsDistinct rt m d.1)

-- The resource of a type that a record stands for.
abbrev pub of_type : ResourceType → String → Option ResourceStorage → Option Resource
of_type rt id none = none
of_type rt id (some x) = if same_type x.type rt then some (record { type = rt; id = id }) else none

find_by-collect :
    (rt : ResourceType) (k : String) (m : List (String × ResourceStorage))
    → IsMap m
    → find_by id_of k (collect rt m) ≡ of_type rt k (lookup k m)
unfolding collect find_by lookup
find_by-collect rt k [] d = refl
find_by-collect rt k ((id, x) ∷ m) d =
    ground (arith, find_by-collect rt k m d.1, eq_iff id k, lookup-Misses id m d.0)

-- The listing is strictly sorted by id.
pub registered_resources-IsSorted :
    (rt : ResourceType) (s : Storage) → IsValid s → IsSorted id_of (registered_resources s rt)
unfolding registered_resources
registered_resources-IsSorted rt s v =
    sort_by-IsSorted id_of (collect rt s.resources) (collect-IsDistinct rt s.resources v.ids)

-- A resource is listed exactly when it is stored under the type.
pub find_by-registered_resources :
    (rt : ResourceType) (k : String) (s : Storage)
    → IsValid s
    → find_by id_of k (registered_resources s rt) ≡ of_type rt k (lookup k s.resources)
unfolding registered_resources
find_by-registered_resources rt k s v =
    find_by-sort_by id_of k (collect rt s.resources) (collect-IsDistinct rt s.resources v.ids)
    ∙ find_by-collect rt k s.resources v.ids

-- Two stores that hold the same records, in whatever order, list the same resources.
pub registered_resources-order :
    (rt : ResourceType) (s t : Storage)
    → IsValid s
    → IsValid t
    → ((k : String) → lookup k s.resources ≡ lookup k t.resources)
    → registered_resources s rt ≡ registered_resources t rt
registered_resources-order rt s t v w same =
    sorted_ext id_of (registered_resources s rt) (registered_resources t rt)
      (registered_resources-IsSorted rt s v) (registered_resources-IsSorted rt t w)
      (λ k.
        find_by-registered_resources rt k s v
        ∙ ap (of_type rt k) (same k)
        ∙ sym (find_by-registered_resources rt k t w))

map-Fresh :
    (k : String) (m : List (String × String)) → Misses k m → Fresh key_of k (map to_attribute m)
map-Fresh k [] f = tt
map-Fresh k ((j, v) ∷ m) f = (f.0, map-Fresh k m f.1)

map-IsDistinct : (m : List (String × String)) → IsMap m → IsDistinct key_of (map to_attribute m)
map-IsDistinct [] d = tt
map-IsDistinct ((j, v) ∷ m) d = (map-Fresh j m d.0, map-IsDistinct m d.1)

abbrev value_of : Option Attribute → Option String
value_of none = none
value_of (some a) = some a.value

find_key-find_by :
    (k : String) (xs : List Attribute) → find_key xs k ≡ value_of (find_by key_of k xs)
unfolding find_key find_by
find_key-find_by k [] = refl
find_key-find_by k (a ∷ xs) = ground (arith, find_key-find_by k xs)

find_key-map :
    (k : String) (m : List (String × String)) → find_key (map to_attribute m) k ≡ lookup k m
unfolding find_key lookup
find_key-map k [] = refl
find_key-map k ((j, v) ∷ m) = ground (arith, find_key-map k m)

find_key-attributes_list :
    (k : String) (m : List (String × String))
    → IsMap m
    → find_key (attributes_list m) k ≡ lookup k m
unfolding attributes_list
find_key-attributes_list k m d =
    find_key-find_by k _
    ∙ ap value_of (find_by-sort_by key_of k (map to_attribute m) (map-IsDistinct m d))
    ∙ sym (find_key-find_by k (map to_attribute m))
    ∙ find_key-map k m

attributes_list-IsSorted :
    (m : List (String × String)) → IsMap m → IsSorted key_of (attributes_list m)
unfolding attributes_list
attributes_list-IsSorted m d = sort_by-IsSorted key_of (map to_attribute m) (map-IsDistinct m d)

abbrev pub field_of : Option ResourceStorage → String → Option String
field_of none k = none
field_of (some x) k = lookup k x.attrs

-- The attributes that are read back are sorted by name, and `Key` finds in them what is stored.
pub resource_attributes_lem :
    (s : Storage) (id : String) (xs : Attributes)
    → IsValid s
    → resource_attributes s id ≡ ok xs
    → IsSorted key_of xs × ((k : String) → find_key xs k ≡ field_of (lookup id s.resources) k)
unfolding resource_attributes
resource_attributes_lem s id xs v h = elim (Option-cases (lookup id s.resources)) [
  | inl e ↦ absurd (ground (arith, e))
  | inr (x, e) ↦
      let d = lookup-AllValues HasDistinctKeys id s.resources v.names e in
      let p : attributes_list x.attrs ≡ xs = ground (arith, e) in
      subst
        (λ ys.
          IsSorted key_of ys × ((k : String) → find_key ys k ≡ field_of (lookup id s.resources) k))
        p (attributes_list-IsSorted x.attrs d, λ k. rw e (find_key-attributes_list k x.attrs d))
]
