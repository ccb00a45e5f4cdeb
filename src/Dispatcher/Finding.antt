-- ===== src/Dispatcher/Finding.antt =====
-- findResource of pkg/dc2/dispatcher.go answers from the type that the storage keeps.
use dc.Prelude.{
  ◌≡◌, refl, ap, sym, ◌∙◌, String, Option, none, some, List, Bool-cases, inl, inr, if◌then◌else◌,
}
use dc.Api.{Result, ok, err, resource_not_found}
use dc.Storage.{
  Storage, ResourceStorage, same_type, Attribute, Resource, ResourceType, lookup,
  set_resource_attributes,
}
use dc.Storage.Invariant.{IsValid, set_resource_attributes-IsValid}
use dc.Storage.Listing.{of_type, find_by-registered_resources}
use dc.Storage.Kinds.{type_in, kind_of, kind_of-set}
use dc.Storage.View.{view, entry_view}
use dc.Dispatcher.{find_resource}

abbrev by_kind : ResourceType → String → Option ResourceType → Result Resource
by_kind rt id none = err (resource_not_found id)
by_kind rt id (some t) =
    if same_type t rt then ok (record { type = rt; id = id }) else err (resource_not_found id)

abbrev answer_of : String → Option Resource → Result Resource
answer_of id none = err (resource_not_found id)
answer_of id (some r) = ok r

find_resource-listed :
    (rt : ResourceType) (id : String) (s : Storage)
    → IsValid s
    → find_resource s rt id ≡ answer_of id (of_type rt id (lookup id s.resources))
unfolding find_resource
find_resource-listed rt id s v = ap (answer_of id) (find_by-registered_resources rt id s v)

kind_answer :
    (rt : ResourceType) (id : String) (x : Option ResourceStorage)
    → answer_of id (of_type rt id x) ≡ by_kind rt id (type_in (entry_view x))
kind_answer rt id none = refl
kind_answer rt id (some x) = elim (Bool-cases (same_type x.type rt)) [
  | inl b ↦ rw b refl
  | inr b ↦ rw b refl
]

find_resource-kind_of :
    (rt : ResourceType) (id : String) (s : Storage)
    → IsValid s
    → find_resource s rt id ≡ by_kind rt id (kind_of s id)
unfolding view
find_resource-kind_of rt id s v =
    find_resource-listed rt id s v ∙ kind_answer rt id (lookup id s.resources)

pub find_resource-set :
    (rt : ResourceType) (id : String) (attrs : List Attribute) (s : Storage)
    → IsValid s
    → find_resource (set_resource_attributes id attrs s).0 rt id ≡ find_resource s rt id
find_resource-set rt id attrs s v =
    find_resource-kind_of rt id (set_resource_attributes id attrs s).0
      (set_resource_attributes-IsValid id attrs s v)
    ∙ ap (by_kind rt id) (kind_of-set id attrs s id)
    ∙ sym (find_resource-kind_of rt id s v)
