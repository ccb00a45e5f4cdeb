-- ===== src/LaunchTemplate/Find.antt =====
-- findLaunchTemplate of pkg/dc2/dispatcher_launch_template.go, the tags that link an instance to its
-- template (pkg/dc2/launch_template_linkage.go) and cloneBlockDeviceMappings.
use dc.Prelude.{String, Bool, Option, List, [], ◌∷◌, ◌++◌, ◌==◌, if◌then◌else◌}
use dc.Api.{Result, ok, err, ◌>>=◌, is_not_found}
use dc.Storage.{Storage, Attribute, launch_template_type, insert, tag_attribute_name, text_or}
use dc.Dispatcher.{find_resource}
use dc.Spot.{TagMap}
use dc.LaunchTemplate.{not, Json}
use dc.LaunchTemplate.Load.{Template, load_template, find_by_name, validation_error}

-- api.AutoScalingLaunchTemplateSpecification
pub record Specification : Type 0 where
  pub id : Option String
  pub name : Option String
  pub version : Option String

module _ {R : Type 0} (json : Json R) (is_time : String → Bool) where
  find_template_id : Specification → Storage → Result String
  find_template_id spec s =
      let id = text_or spec.id "" in
      let name = text_or spec.name "" in
      if not (id == "")
      then ok id
      else if not (name == "")
      then (find_by_name json is_time s name >>= λ t. ok t.id)
      else err validation_error

  -- findLaunchTemplate; the specification is there.
  unfoldable pub find_launch_template : Specification → Storage → Result (Template R)
  unfolding find_template_id
  find_launch_template spec s = find_template_id spec s >>= λ id.
      elim (find_resource s launch_template_type id) [
        | err e ↦ err (if is_not_found e then validation_error else e)
        | ok r ↦ load_template json is_time s id (text_or spec.version "")
      ]

abbrev tag_id : String
tag_id = "aws:ec2launchtemplate:id"

abbrev tag_version : String
tag_version = "aws:ec2launchtemplate:version"

abbrev tag_attribute : String → String → List Attribute
tag_attribute key value =
    if value == "" then [] else record { key = tag_attribute_name key; value = value } ∷ []

-- launchTemplateLinkageTagAttributes
unfoldable pub linkage_tag_attributes : String → String → List Attribute
linkage_tag_attributes id version = tag_attribute tag_id id ++ tag_attribute tag_version version

abbrev with_tag : String → String → TagMap → TagMap
with_tag key value tags = if value == "" then tags else insert key value tags

-- ensureLaunchTemplateLinkageTags
unfoldable pub ensure_linkage_tags : TagMap → String → String → TagMap
ensure_linkage_tags tags id version = with_tag tag_version version (with_tag tag_id id tags)
