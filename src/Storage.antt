-- ===== src/Storage.antt =====
-- pkg/dc2/storage/storage.go and memory.go: the store of every resource that the emulator knows,
-- and of the attributes (tags included) of each. The proofs are in the children.
-- A Go map is an association list; `delete` and a write keep the keys distinct.
use dc.Prelude.{
  String, Bool, true, false, ◌||◌, Option, none, some, List, [], ◌∷◌, map, ◌==◌, if◌then◌else◌,
}
pub mod Maps
pub mod Invariant
pub mod View
pub mod Listing
pub mod Calls
pub mod Changes
pub mod Kinds
use Prim.Native.String.{◌++◌}
use dc.Prelude.Text.{has_prefix, after_prefix?}
use dc.Prelude.Sorting.{sort_by}
use dc.Api.{resource_not_found, duplicated_resource, Result, ok, err}
use dc.Api.Exec.{Exec}

-- types.ResourceType; `other` is any text that is none of the program's constants.
pub data ResourceType : Type 0 where
  instance_type volume_type launch_template_type security_group_type : ResourceType
  auto_scaling_group_type network_interface_type spot_instances_request_type : ResourceType
  other_type : String → ResourceType

pub record Resource : Type 0 where
  pub type : ResourceType
  pub id : String

pub record Attribute : Type 0 where
  pub key : String
  pub value : String

abbrev pub Attributes : Type 0
Attributes = List Attribute

-- The Go map operations `m[key]`, `delete(m, key)` and `m[key] = value`.
module _ {ℓ} {V : Type ℓ} where
  unfoldable pub lookup : String → List (String × V) → Option V
  lookup key [] = none
  lookup key (entry ∷ rest) = if entry.0 == key then some entry.1 else lookup key rest

  unfoldable pub delete : String → List (String × V) → List (String × V)
  delete key [] = []
  delete key (entry ∷ rest) =
      let others = delete key rest in if entry.0 == key then others else entry ∷ others

  unfoldable pub insert : String → V → List (String × V) → List (String × V)
  insert key value [] = (key, value) ∷ []
  insert key value (entry ∷ rest) =
      let others = insert key value rest in
      if entry.0 == key then (key, value) ∷ rest else entry ∷ others

unfoldable pub same_type : ResourceType → ResourceType → Bool
same_type instance_type instance_type = true
same_type volume_type volume_type = true
same_type launch_template_type launch_template_type = true
same_type security_group_type security_group_type = true
same_type auto_scaling_group_type auto_scaling_group_type = true
same_type network_interface_type network_interface_type = true
same_type spot_instances_request_type spot_instances_request_type = true
same_type (other_type s) (other_type t) = s == t
same_type _ _ = false

abbrev pub tag_prefix : String
tag_prefix = "tag:"

-- Attribute.IsTag
unfoldable pub is_tag : Attribute → Bool
is_tag a = has_prefix a.key tag_prefix

-- Attribute.TagKey
unfoldable pub tag_key : Attribute → String
tag_key a = elim (after_prefix? tag_prefix a.key) [ none ↦ "" | some k ↦ k ]

-- TagAttributeName
unfoldable pub tag_attribute_name : String → String
tag_attribute_name key = tag_prefix ++ key

-- Attributes.Key: the value and whether it was found; the value is "" if not.
unfoldable pub find_key : Attributes → String → Option String
find_key [] key = none
find_key (a ∷ attrs) key = if a.key == key then some a.value else find_key attrs key

abbrev pub text_or : Option String → String → String
text_or none d = d
text_or (some v) d = v

-- `value, _ := attrs.Key(key)`
abbrev pub key_or_empty : Attributes → String → String
key_or_empty attrs key = text_or (find_key attrs key) ""

-- resourceStorage; a nil `Attrs` reads as the empty map.
pub record ResourceStorage : Type 0 where
  pub type : ResourceType
  pub attrs : List (String × String)

-- memoryStorage
pub record Storage : Type 0 where
  pub resources : List (String × ResourceStorage)

-- NewMemoryStorage
abbrev pub new_memory_storage : Storage
new_memory_storage = record { resources = [] }

unfoldable pub register_resource : Resource → Exec Storage (Unit {0})
register_resource r s = elim (lookup r.id s.resources) [
  | some x ↦ (s, err (duplicated_resource r.id))
  | none ↦
      (record { resources = insert r.id (record { type = r.type; attrs = [] }) s.resources }, ok tt)
]

unfoldable pub remove_resource : String → Exec Storage (Unit {0})
remove_resource id s = elim (lookup id s.resources) [
  | none ↦ (s, err (resource_not_found id))
  | some x ↦ (record { resources = delete id s.resources }, ok tt)
]

-- The loop over the map that keeps the resources of a type.
collect : ResourceType → List (String × ResourceStorage) → List Resource
collect rt [] = []
collect rt ((id, x) ∷ m) =
    let rest = collect rt m in
    if same_type x.type rt then record { type = rt; id = id } ∷ rest else rest

-- RegisteredResources never fails.
unfoldable pub registered_resources : Storage → ResourceType → List Resource
unfolding collect
registered_resources s rt = sort_by (λ (r : Resource). r.id) (collect rt s.resources)

-- The loop of SetResourceAttributes.
pub set_attributes : List Attribute → List (String × String) → List (String × String)
set_attributes [] m = m
set_attributes (a ∷ attrs) m = set_attributes attrs (insert a.key a.value m)

-- `attr.Value == "" || resource.Attrs[attr.Key] == attr.Value`
removes : Attribute → List (String × String) → Bool
removes a m = a.value == "" || text_or (lookup a.key m) "" == a.value

-- The loop of RemoveResourceAttributes.
pub remove_attributes : List Attribute → List (String × String) → List (String × String)
unfolding removes
remove_attributes [] m = m
remove_attributes (a ∷ attrs) m =
    remove_attributes attrs (if removes a m then delete a.key m else m)

-- A write through the pointer that the map holds.
update_attrs : String → (List (String × String) → List (String × String)) → Exec Storage (Unit {0})
update_attrs id f s = elim (lookup id s.resources) [
  | none ↦ (s, err (resource_not_found id))
  | some x ↦ (record { resources = insert id (record x { attrs = f x.attrs }) s.resources }, ok tt)
]

unfoldable pub set_resource_attributes : String → List Attribute → Exec Storage (Unit {0})
unfolding update_attrs set_attributes
set_resource_attributes id attrs = update_attrs id (set_attributes attrs)

unfoldable pub remove_resource_attributes : String → List Attribute → Exec Storage (Unit {0})
unfolding update_attrs remove_attributes
remove_resource_attributes id attrs = update_attrs id (remove_attributes attrs)

abbrev to_attribute : String × String → Attribute
to_attribute (k, v) = record { key = k; value = v }

attributes_list : List (String × String) → Attributes
attributes_list m = sort_by (λ (a : Attribute). a.key) (map to_attribute m)

unfoldable pub resource_attributes : Storage → String → Result Attributes
unfolding attributes_list
resource_attributes s id = elim (lookup id s.resources) [
  | none ↦ err (resource_not_found id)
  | some x ↦ ok (attributes_list x.attrs)
]
