-- ===== src/Dispatcher.antt =====
-- pkg/dc2/dispatcher.go: what the handlers share. The parts of the file are in the children.
pub mod Finding
pub mod Names
pub mod Paging
pub mod Tags
pub mod Filters
use dc.Prelude.{
  ℕ, zero, suc, String, Bool, true, false, Option, none, some, List, [], ◌∷◌, ◌==◌, if◌then◌else◌,
}
use dc.Prelude.Text.{after_first?}
use dc.Prelude.Strconv.{format_uint}
use dc.Prelude.Sorting.{find_by}
use dc.Api.{Result, ok, err, resource_not_found, invalid_parameter_value}
use dc.Storage.{
  ResourceType, Resource, Storage, Attributes, registered_resources, same_type, key_or_empty,
}
use Prim.Native.String.{◌++◌}

-- api.Tag
pub record Tag : Type 0 where
  pub key : String
  pub value : String

-- api.TagSpecification
pub record TagSpecification : Type 0 where
  pub resource_type : ResourceType
  pub tags : List Tag

-- findResource
unfoldable pub find_resource : Storage → ResourceType → String → Result Resource
find_resource s rt id = elim (find_by (λ (r : Resource). r.id) id (registered_resources s rt)) [
  | none ↦ err (resource_not_found id)
  | some r ↦ ok r
]

-- The loop of validateTagSpecifications from the index `i`.
validate_from : ℕ → List TagSpecification → ResourceType → Result (Unit {0})
validate_from i [] rt = ok tt
validate_from i (spec ∷ specs) rt =
    let rest = validate_from (suc i) specs rt in
    if same_type spec.resource_type rt
    then rest
    else err
        (invalid_parameter_value ("TagSpecification." ++ format_uint 10 (suc i) ++ ".ResourceType"))

-- validateTagSpecifications
unfoldable pub validate_tag_specifications :
    List TagSpecification → ResourceType → Result (Unit {0})
unfolding validate_from
validate_tag_specifications specs rt = validate_from 0 specs rt

-- parseAttr
unfoldable pub parse_attr {ℓ} : {A : Type ℓ} → Attributes → String → (String → Result A) → Result A
parse_attr attrs key parser = parser (key_or_empty attrs key)

abbrev pub instance_id_prefix : String
instance_id_prefix = "i-"

-- executorInstanceID: `id[len(instanceIDPrefix):]` of an ASCII text; a shorter one panics.
unfoldable pub executor_instance_id : String → Option String
unfolding after_first?
executor_instance_id id = elim (after_first? id) [ none ↦ none | some r ↦ after_first? r ]
