-- ===== src/Examples/Templates.antt =====
-- The theorems on launch templates, at concrete inputs.
use dc.Prelude.{
  String, ◌≡◌, refl, Bool, true, false, Option, none, some, List, [], ◌∷◌, arith, ◌==◌,
}
use dc.Prelude.Int.{ℤ, pos, ◌≤ℤ◌}
use dc.Prelude.Text.{trim_space, lt_text}
use dc.Prelude.Sorting.{sort_by, find_by}
use dc.Prelude.Strconv.{parse_int, parse_uint, format_int, format_uint}
use dc.Api.{ok, is_not_found}
use dc.Storage.{
  Storage, launch_template_type, lookup, insert, delete, same_type, registered_resources,
  resource_attributes, find_key, set_resource_attributes, remove_resource_attributes,
}
use dc.Storage.Invariant.{IsValid}
use dc.Dispatcher.{find_resource}
use dc.LaunchTemplate.{
  Codec, Json, VersionData, validate_launch_template_data, validate_block_device_mappings,
  launch_template_data_is_empty, field_text,
}
use dc.LaunchTemplate.Names
use dc.LaunchTemplate.Names.{
  of_version, version_attribute_name, description_name, create_time_name, legacy_attribute_name,
}
use dc.LaunchTemplate.Load.{
  Metadata, load_metadata, metadata_from, read_version, read_time, raw_field, version_data_from,
  load_version_data, field_attributes, version_attributes, legacy_attributes,
  resolve_version_selector, load_template, find_by_name, find_by_id, resolve_reference,
}
use dc.LaunchTemplate.Versions.{resolve_version_selector-bounds}
use dc.LaunchTemplate.Handlers.{
  VersionRequest, ModifyRequest, create_launch_template_version, modify_launch_template,
}
use dc.LaunchTemplate.Handlers.Defaults.Bounds.{modify_launch_template-bounds}
use dc.LaunchTemplate.Handlers.Defaults.{modify_launch_template-keeps}
use dc.LaunchTemplate.Handlers.Numbers.{IsNumbered, create_launch_template_version-IsNumbered}

abbrev plain_text : Codec String
plain_text = record { marshal = λ s. some s; unmarshal = λ s. some s }

abbrev json : Json String
json = record {
  requirements = plain_text;
  strings = record { marshal = λ xs. none; unmarshal = λ s. some (s ∷ []) };
  mappings = record { marshal = λ xs. none; unmarshal = λ s. none };
}

abbrev is_time : String → Bool
is_time s = s == "t"

-- A template with two versions, the first of which is the default.
abbrev pub store : Storage
store = record {
  resources =
      (
        "lt-1",
        record {
          type = launch_template_type;
          attrs =
              (Names.template_name, "web")
              ∷ (Names.default_version, "1")
              ∷ (Names.latest_version, "2")
              ∷ ("LaunchTemplateVersion.1.ImageID", "ami-1")
              ∷ ("LaunchTemplateVersion.2.ImageID", "ami-2")
              ∷ [];
        },
      )
      ∷ [];
}

store-IsValid : IsValid store
store-IsValid = record {
  ids = (tt, tt);
  names = (
    (
      (refl, (refl, (refl, (refl, tt)))),
      ((refl, (refl, (refl, tt))), ((refl, (refl, tt)), ((refl, tt), (tt, tt)))),
    ),
    tt,
  );
}

selected : resolve_version_selector "2" (pos 1) (pos 3) "Version" ≡ ok (pos 2)
unfolding resolve_version_selector parse_int parse_uint
selected = refl

resolve_version_selector-bounds_example : (pos 1 ≤ℤ pos 2) × (pos 2 ≤ℤ pos 3)
resolve_version_selector-bounds_example =
    resolve_version_selector-bounds "2" "Version" (pos 1) (pos 3) (pos 2) (omega arith)
      (omega arith) selected

abbrev metadata : ℤ → Metadata
metadata default = record {
  id = "lt-1";
  name = "web";
  create_time = none;
  default_version = default;
  latest_version = pos 2;
}

abbrev second_default : ModifyRequest
second_default = record { dry_run = false; id = "lt-1"; name = ""; set_default_version = "2" }

loads : load_metadata is_time store "lt-1" ≡ ok (metadata (pos 1))
unfolding load_metadata metadata_from read_version read_time resource_attributes lookup sort_by
    lt_text find_key parse_int parse_uint
loads = refl

modifies : (modify_launch_template json is_time second_default store).1 ≡ ok (metadata (pos 2))
unfolding modify_launch_template load_metadata metadata_from read_version read_time
    resource_attributes lookup insert delete sort_by lt_text find_key parse_int parse_uint
    format_int format_uint resolve_version_selector load_version_data version_data_from raw_field
    of_version version_attribute_name description_name create_time_name legacy_attribute_name
    trim_space resolve_reference find_by_id find_by_name find_resource registered_resources
    same_type find_by load_template set_resource_attributes remove_resource_attributes
    legacy_attributes field_attributes field_text
modifies = refl

modify_launch_template-bounds_example :
    (load_metadata is_time (modify_launch_template json is_time second_default store).0 "lt-1"
      ≡ ok (metadata (pos 2)))
    × (metadata (pos 2) ≡ metadata (pos 2))
    × (pos 1 ≤ℤ pos 2)
    × (pos 2 ≤ℤ pos 2)
modify_launch_template-bounds_example =
    modify_launch_template-bounds json is_time second_default store (metadata (pos 1))
      (metadata (pos 2)) store-IsValid loads (omega arith) (omega arith)
      (record { above = omega arith; below = omega arith }) modifies

modify_launch_template-keeps_example :
    load_version_data json is_time
      (modify_launch_template json is_time second_default store).0
      "lt-1"
      (pos 2)
    ≡ load_version_data json is_time store "lt-1" (pos 2)
modify_launch_template-keeps_example =
    modify_launch_template-keeps json is_time second_default store (metadata (pos 2)) (pos 2)
      store-IsValid modifies refl

abbrev another : VersionRequest String
another = record {
  dry_run = false;
  id = "";
  name = "web";
  source_version = some "$Latest";
  version_description = none;
  template_data = record {
    image_id = "";
    instance_requirements = some "4 cpus";
    instance_kind = "";
    user_data = "";
    security_group_ids = [];
    block_device_mappings = [];
    tag_specifications = [];
  };
}

abbrev third : VersionData String
third = record {
  version = pos 3;
  image_id = "ami-2";
  instance_requirements = some "4 cpus";
  instance_kind = "";
  user_data = "";
  security_group_ids = [];
  block_device_mappings = [];
  version_description = none;
  create_time = some "t";
}

creates : (create_launch_template_version json is_time "t" another store).1 ≡ ok third
unfolding create_launch_template_version validate_launch_template_data
    validate_block_device_mappings launch_template_data_is_empty load_metadata metadata_from
    read_version read_time resource_attributes lookup insert sort_by lt_text find_key parse_int
    parse_uint format_int format_uint resolve_version_selector load_version_data version_data_from
    raw_field of_version version_attribute_name description_name create_time_name
    legacy_attribute_name trim_space resolve_reference find_by_name registered_resources same_type
    load_template set_resource_attributes version_attributes field_attributes field_text
    is_not_found dc.Prelude.Int.wrap64 dc.Prelude.Int.◌+ℤ◌
creates = refl

create_launch_template_version-IsNumbered_example :
    IsNumbered json is_time another store
      (create_launch_template_version json is_time "t" another store).0
      third
create_launch_template_version-IsNumbered_example =
    create_launch_template_version-IsNumbered json is_time "t" another store third store-IsValid
      creates
