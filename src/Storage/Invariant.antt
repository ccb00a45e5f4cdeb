-- ===== src/Storage/Invariant.antt =====
-- The store stays well formed: resource ids are distinct, and so are the attribute names of each
-- resource.
use dc.Api.{ok, err, resource_not_found}
use dc.Prelude.{
  ◌≡◌, ◌⊎◌, refl, ◌⊎◌, ◌≡◌, String, List, [], ◌∷◌, arith, inl, inr, Option-cases, if◌then◌else◌,
}
use dc.Storage.{
  resource_not_found, err, ok, Resource, Attribute, ResourceStorage, Storage, lookup, insert,
  delete, new_memory_storage, register_resource, remove_resource, removes, set_attributes,
  remove_attributes, update_attrs, set_resource_attributes, remove_resource_attributes,
}
use dc.Storage.Maps.{
  IsMap, AllValues, insert-IsMap, delete-IsMap, insert-AllValues, delete-AllValues,
  lookup-AllValues,
}

abbrev pub HasDistinctKeys : ResourceStorage → Type 0
HasDistinctKeys x = IsMap x.attrs

pub record IsValid (s : Storage) : Type 0 where
  pub ids : IsMap s.resources
  pub names : AllValues HasDistinctKeys s.resources

pub IsValid-new : IsValid new_memory_storage
IsValid-new = record { ids = tt; names = tt }

pub register_resource-IsValid :
    (r : Resource) (s : Storage) → IsValid s → IsValid (register_resource r s).0
unfolding register_resource
register_resource-IsValid r s v = elim (Option-cases (lookup r.id s.resources)) [
  | inl e ↦
      rw (e, register_resource)
        (record {
          ids = insert-IsMap _ _ _ v.ids;
          names = insert-AllValues HasDistinctKeys _ _ _ tt v.names;
        })
  | inr (x, e) ↦ rw (e, register_resource) v
]

pub remove_resource-IsValid :
    (id : String) (s : Storage) → IsValid s → IsValid (remove_resource id s).0
unfolding remove_resource
remove_resource-IsValid id s v = elim (Option-cases (lookup id s.resources)) [
  | inl e ↦ rw (e, remove_resource) v
  | inr (x, e) ↦
      rw (e, remove_resource)
        (record {
          ids = delete-IsMap _ _ v.ids;
          names = delete-AllValues HasDistinctKeys _ _ v.names;
        })
]

update_attrs-IsValid :
    (id : String) (f : List (String × String) → List (String × String)) (s : Storage)
    → ((m : List (String × String)) → IsMap m → IsMap (f m))
    → IsValid s
    → IsValid (update_attrs id f s).0
unfolding update_attrs
update_attrs-IsValid id f s keep v = elim (Option-cases (lookup id s.resources)) [
  | inl e ↦ rw (e, update_attrs) v
  | inr (x, e) ↦
      rw (e, update_attrs)
        (record {
          ids = insert-IsMap _ _ _ v.ids;
          names =
              insert-AllValues HasDistinctKeys _ _ _
                (keep x.attrs (lookup-AllValues HasDistinctKeys id s.resources v.names e)) v.names;
        })
]

set_attributes-IsMap :
    (attrs : List Attribute) (m : List (String × String)) → IsMap m → IsMap (set_attributes attrs m)
unfolding set_attributes
set_attributes-IsMap [] m d = d
set_attributes-IsMap (a ∷ attrs) m d =
    set_attributes-IsMap attrs (insert a.key a.value m) (insert-IsMap a.key a.value m d)

remove_attributes-IsMap :
    (attrs : List Attribute) (m : List (String × String))
    → IsMap m
    → IsMap (remove_attributes attrs m)
unfolding remove_attributes
remove_attributes-IsMap [] m d = d
remove_attributes-IsMap (a ∷ attrs) m d =
    remove_attributes-IsMap attrs (if removes a m then delete a.key m else m)
      (ground (arith, delete-IsMap a.key m d))

pub set_resource_attributes-IsValid :
    (id : String) (attrs : List Attribute) (s : Storage)
    → IsValid s
    → IsValid (set_resource_attributes id attrs s).0
unfolding set_resource_attributes
set_resource_attributes-IsValid id attrs s v =
    update_attrs-IsValid id (set_attributes attrs) s (set_attributes-IsMap attrs) v

pub remove_resource_attributes-IsValid :
    (id : String) (attrs : List Attribute) (s : Storage)
    → IsValid s
    → IsValid (remove_resource_attributes id attrs s).0
unfolding remove_resource_attributes
remove_resource_attributes-IsValid id attrs s v =
    update_attrs-IsValid id (remove_attributes attrs) s (remove_attributes-IsMap attrs) v

-- Setting attributes fails only because the resource is missing.
pub set_resource_attributes-cases :
    (id : String) (attrs : List Attribute) (s : Storage)
    → ((set_resource_attributes id attrs s).1 ≡ ok tt)
      ⊎ (set_resource_attributes id attrs s ≡ (s, err (resource_not_found id)))
unfolding set_resource_attributes update_attrs
set_resource_attributes-cases id attrs s = elim (Option-cases (lookup id s.resources)) [
  | inl e ↦ inr (rw (e, update_attrs) refl)
  | inr (x, e) ↦ inl (rw (e, update_attrs) refl)
]
