-- ===== src/AutoScaling/Tags.antt =====
-- The tags of groups in pkg/dc2/dispatcher_autoscaling.go: autoScalingTagAttributes and
-- dispatchCreateOrUpdateAutoScalingTags.
pub mod Keeps
use Prim.Native.String.{◌++◌ as ◌<>◌}
use dc.Prelude.{
  ℕ, suc, ltb, String, Bool, true, false, not, ◌&&◌, Option, none, some, List, [], ◌∷◌, ◌++◌, ◌==◌,
  length, if◌then◌else◌,
}
use dc.Prelude.Strconv.{format_uint, format_bool}
use dc.Api.{Result, ok, err, ◌>>=◌, ◌>>◌, fail_if, invalid_parameter_value, is_not_found, wrapped}
use dc.Api.Exec
use dc.Api.Exec.{Exec}
use dc.Storage.{
  Storage, Attribute, auto_scaling_group_type, tag_attribute_name, set_resource_attributes, lookup,
  insert,
}
use dc.Dispatcher.{find_resource}
use dc.LaunchTemplate.Load.{validation_error}
use dc.AutoScaling.Names
use dc.AutoScaling.Stored.{attribute}

-- api.AutoScalingTag; an absent text is empty, and an absent kind is none.
pub record GroupTag : Type 0 where
  pub key : String
  pub resource_id : String
  pub resource_kind : Option String
  pub value : String
  pub propagate_at_launch : Bool

abbrev tag_request_count_limit : ℕ
tag_request_count_limit = 1000

abbrev resource_kind_name : String
resource_kind_name = "auto-scaling-group"

abbrev is_other_kind : Option String → Bool
is_other_kind none = false
is_other_kind (some k) = not (k == resource_kind_name)

abbrev or_else : String → String → String
or_else value d = if value == "" then d else value

-- autoScalingTagAttributes, which names the resource too
unfoldable pub tag_attributes : GroupTag → String → String → Bool → Result (String × List Attribute)
tag_attributes t prefix default required =
    let id = or_else t.resource_id default in
    do
      fail_if (t.key == "") (invalid_parameter_value (prefix <> ".Key"))
      fail_if (id == "" && required) (invalid_parameter_value (prefix <> ".ResourceId"))
      fail_if (not (default == "") && not (id == default))
          (invalid_parameter_value (prefix <> ".ResourceId"))
      fail_if (is_other_kind t.resource_kind) (invalid_parameter_value (prefix <> ".ResourceType"))
      ok (
        id,
        attribute (tag_attribute_name t.key) t.value
            ∷ attribute (Names.propagate_prefix <> t.key) (format_bool t.propagate_at_launch)
            ∷ [],
      )

abbrev param_prefix : ℕ → String
param_prefix i = "Tags.member." <> format_uint 10 (suc i)

-- The loop over the tags in dispatchCreateAutoScalingGroup.
unfoldable pub tags_of_group : ℕ → String → List GroupTag → Result (List Attribute)
tags_of_group i name [] = ok []
tags_of_group i name (t ∷ ts) = do
  one ← tag_attributes t (param_prefix i) name false
  rest ← tags_of_group (suc i) name ts
  ok (one.1 ++ rest)

abbrev attributes_so_far : Option (List Attribute) → List Attribute
attributes_so_far none = []
attributes_so_far (some attrs) = attrs

abbrev AttributesOf : Type 0
AttributesOf = List (String × List Attribute)

-- The loop of dispatchCreateOrUpdateAutoScalingTags that reads the tags.
tags_by_group : ℕ → Storage → List GroupTag → AttributesOf → Result AttributesOf
tags_by_group i s [] m = ok m
tags_by_group i s (t ∷ ts) m = do
  one ← tag_attributes t (param_prefix i) "" true
  elim (find_resource s auto_scaling_group_type one.0) [
    | err e ↦ err (if is_not_found e then validation_error else wrapped e)
    | ok r ↦
        tags_by_group (suc i) s ts (insert one.0 (attributes_so_far (lookup one.0 m) ++ one.1) m)
  ]

-- The loop that writes; the code goes over a map, the model over its list.
set_all : AttributesOf → Exec Storage (Unit {0})
set_all [] = Exec.pure tt
set_all (e ∷ es) = Exec.◌>>◌ (Exec.wrap (set_resource_attributes e.0 e.1)) (set_all es)

-- dispatchCreateOrUpdateAutoScalingTags
unfoldable pub create_or_update_tags : List GroupTag → Exec Storage (Unit {0})
unfolding tags_by_group set_all
create_or_update_tags tags s =
    if ltb tag_request_count_limit (length tags)
    then (s, err (invalid_parameter_value "Tags"))
    else elim (tags_by_group 0 s tags []) [ err e ↦ (s, err e) | ok m ↦ set_all m s ]
