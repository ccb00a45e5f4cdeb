-- ===== src/LaunchTemplate/Names.antt =====
-- The attribute names of pkg/dc2/dispatcher_launch_template.go.
use Prim.Native.String.{◌++◌}
use dc.Prelude.{String, List, [], ◌∷◌}
use dc.Prelude.Int.{ℤ}
use dc.Prelude.Strconv.{format_int}

-- The fields of a version that fall back on the template's own attributes.
pub data Field : Type 0 where
  image_id instance_requirements instance_kind user_data : Field
  security_group_ids block_device_mappings : Field

abbrev pub fields : List Field
fields =
    image_id ∷ instance_requirements ∷ instance_kind ∷ user_data ∷ security_group_ids
    ∷ block_device_mappings ∷ []

abbrev pub suffix : Field → String
suffix image_id = "ImageID"
suffix instance_requirements = "InstanceRequirements"
suffix instance_kind = "InstanceType"
suffix user_data = "UserData"
suffix security_group_ids = "SecurityGroupIDs"
suffix block_device_mappings = "BlockDeviceMappings"

abbrev pub version_start : String
version_start = "LaunchTemplateVersion."

-- `LaunchTemplateVersion.%d.` in front of the name of a field
unfoldable pub of_version : ℤ → String → String
of_version version name = version_start ++ (format_int 10 version ++ ("." ++ name))

-- launchTemplateVersionImageIDAttributeName and so on
unfoldable pub version_attribute_name : ℤ → Field → String
unfolding of_version
version_attribute_name version f = of_version version (suffix f)

unfoldable pub description_name : ℤ → String
unfolding of_version
description_name version = of_version version "VersionDescription"

unfoldable pub create_time_name : ℤ → String
unfolding of_version
create_time_name version = of_version version "CreateTime"

-- The legacy attributes, which follow the default version.
unfoldable pub legacy_attribute_name : Field → String
legacy_attribute_name f = "LaunchTemplateData" ++ suffix f

abbrev pub template_name : String
template_name = "LaunchTemplateName"

abbrev pub template_create_time : String
template_create_time = "LaunchTemplateCreateTime"

abbrev pub default_version : String
default_version = "LaunchTemplateDefaultVersion"

abbrev pub latest_version : String
latest_version = "LaunchTemplateLatestVersion"
