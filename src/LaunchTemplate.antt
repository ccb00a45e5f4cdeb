-- ===== src/LaunchTemplate.antt =====
-- pkg/dc2/dispatcher_launch_template.go and block_device_mappings.go: the data of a launch template
-- version and the attributes that store it. JSON is an interface, a codec for each type that is
-- stored so; R is api.InstanceRequirementsRequest, which is only passed through.
pub mod Names
pub mod Load
pub mod Find
pub mod Handlers
pub mod Versions
pub mod Metadata
use dc.Prelude.{
  ℕ, suc, String, Bool, true, false, ◌&&◌, ◌||◌, not, Option, none, some, List, [], ◌∷◌, ◌==◌,
  if◌then◌else◌, is_empty, is_some,
}
use Prim.Native.String.{◌++◌}
use dc.Prelude.Int.{ℤ, pos, leb_ℤ}
use dc.Prelude.Strconv.{format_uint}
use dc.Api.{Result, ok, err, ◌>>=◌, ◌>>◌, fail_if, invalid_parameter_value, with_code}
use dc.Storage.{
  Attribute, ResourceType, instance_type, volume_type, network_interface_type,
  spot_instances_request_type, same_type,
}
use dc.Dispatcher.{TagSpecification}
use dc.LaunchTemplate.Names.{Field, version_attribute_name, legacy_attribute_name}

-- encoding/json for one type; either direction may fail.
pub record Codec (A : Type 0) : Type 0 where
  pub marshal : A → Option String
  pub unmarshal : String → Option A

-- RunInstancesEBSBlockDevice
pub record Ebs : Type 0 where
  pub delete_on_termination : Bool
  pub encrypted : Bool
  pub iops : Option ℤ
  pub kms_key_id : Option String
  pub throughput : Option ℤ
  pub volume_size : Option ℤ
  pub volume_type : String

-- RunInstancesBlockDeviceMapping
pub record BlockDeviceMapping : Type 0 where
  pub device_name : String
  pub ebs : Option Ebs

pub record Json (R : Type 0) : Type 0 where
  pub requirements : Codec R
  pub strings : Codec (List String)
  pub mappings : Codec (List BlockDeviceMapping)

-- api.LaunchTemplateData
pub record TemplateData (R : Type 0) : Type 0 where
  pub image_id : String
  pub instance_requirements : Option R
  pub instance_kind : String
  pub user_data : String
  pub security_group_ids : List String
  pub block_device_mappings : List BlockDeviceMapping
  pub tag_specifications : List TagSpecification

-- launchTemplateVersionData; times are the texts that are stored for them.
pub record VersionData (R : Type 0) : Type 0 where
  pub version : ℤ
  pub image_id : String
  pub instance_requirements : Option R
  pub instance_kind : String
  pub user_data : String
  pub security_group_ids : List String
  pub block_device_mappings : List BlockDeviceMapping
  pub version_description : Option String
  pub create_time : Option String

lacks_volume_size : Option Ebs → Bool
lacks_volume_size none = true
lacks_volume_size (some e) = elim e.volume_size [ none ↦ true | some n ↦ leb_ℤ n (pos 0) ]

validate_mappings_from : ℕ → List BlockDeviceMapping → String → Result (Unit {0})
unfolding lacks_volume_size
validate_mappings_from i [] field_prefix = ok tt
validate_mappings_from i (m ∷ ms) field_prefix =
    let prefix = field_prefix ++ "." ++ format_uint 10 (suc i) in
    let rest = validate_mappings_from (suc i) ms field_prefix in
    if m.device_name == ""
    then err (invalid_parameter_value (prefix ++ ".DeviceName"))
    else if not (is_some m.ebs)
    then err (invalid_parameter_value (prefix ++ ".Ebs"))
    else if lacks_volume_size m.ebs
    then err (invalid_parameter_value (prefix ++ ".Ebs.VolumeSize"))
    else rest

-- validateBlockDeviceMappings
unfoldable pub validate_block_device_mappings : List BlockDeviceMapping → String → Result (Unit {0})
unfolding validate_mappings_from
validate_block_device_mappings ms field_prefix = validate_mappings_from 0 ms field_prefix

abbrev is_template_tag : ResourceType → Bool
is_template_tag rt =
    same_type rt instance_type
    || same_type rt volume_type
    || same_type rt network_interface_type
    || same_type rt spot_instances_request_type

validate_template_tags_from : ℕ → List TagSpecification → Result (Unit {0})
validate_template_tags_from i [] = ok tt
validate_template_tags_from i (spec ∷ specs) =
    let rest = validate_template_tags_from (suc i) specs in
    if is_template_tag spec.resource_type
    then rest
    else err (
        invalid_parameter_value
          ("LaunchTemplateData.TagSpecification." ++ format_uint 10 (suc i) ++ ".ResourceType"))

-- A marshalled value, empty where there is none or where marshalling fails.
abbrev marshal_some : {A : Type 0} → Codec A → Option A → String
marshal_some c none = ""
marshal_some c (some a) = elim (c.marshal a) [ none ↦ "" | some raw ↦ raw ]

abbrev marshal_list : {A : Type 0} → Codec (List A) → List A → String
marshal_list c [] = ""
marshal_list c (x ∷ xs) = elim (c.marshal (x ∷ xs)) [ none ↦ "" | some raw ↦ raw ]

module _ {R : Type 0} where
  -- validateLaunchTemplateData
  unfoldable pub validate_launch_template_data : TemplateData R → Result (Unit {0})
  unfolding validate_template_tags_from
  validate_launch_template_data d = do
    validate_template_tags_from 0 d.tag_specifications
    validate_block_device_mappings d.block_device_mappings "LaunchTemplateData.BlockDeviceMapping"
    fail_if (not (d.instance_kind == "") && is_some d.instance_requirements)
        (with_code "InvalidParameterCombination")

  -- launchTemplateDataIsEmpty
  unfoldable pub launch_template_data_is_empty : TemplateData R → Bool
  launch_template_data_is_empty d =
      d.image_id == ""
      && not (is_some d.instance_requirements)
      && d.instance_kind == ""
      && d.user_data == ""
      && is_empty d.security_group_ids
      && is_empty d.block_device_mappings
      && is_empty d.tag_specifications

  -- The text that is stored for a field, empty if the field is not stored.
  unfoldable pub field_text : Json R → VersionData R → Field → String
  field_text j d Names.image_id = d.image_id
  field_text j d Names.instance_requirements = marshal_some j.requirements d.instance_requirements
  field_text j d Names.instance_kind = d.instance_kind
  field_text j d Names.user_data = d.user_data
  field_text j d Names.security_group_ids = marshal_list j.strings d.security_group_ids
  field_text j d Names.block_device_mappings = marshal_list j.mappings d.block_device_mappings
