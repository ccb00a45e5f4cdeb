-- ===== src/LaunchTemplate/Handlers.antt =====
-- The handlers of pkg/dc2/dispatcher_launch_template.go that change the store, and the description
-- of versions. A request's `id` and `name` are the texts behind its pointers, empty for nil; `now`
-- is the current time as a text.
pub mod Defaults
pub mod Numbers
use dc.Prelude.{
  String, Bool, ◌&&◌, not, Option, none, some, List, [], ◌∷◌, ◌++◌, ◌==◌, if◌then◌else◌, is_some,
  map,
}
use dc.Prelude.Int.{ℤ, pos, ◌+ℤ◌, wrap64}
use dc.Prelude.Strconv.{format_int}
use dc.Api.{
  wrap, Error, Result, ok, err, ◌>>=◌, ◌>>◌, fail_if, plain, wrapped, with_code, is_not_found,
  invalid_parameter_value,
}
use dc.Api.Exec
use dc.Api.Exec.{Exec}
use dc.Storage.{
  Storage, Attribute, launch_template_type, register_resource, remove_resource,
  set_resource_attributes, remove_resource_attributes,
}
use dc.LaunchTemplate.{
  Json, TemplateData, VersionData, validate_launch_template_data, launch_template_data_is_empty,
}
use dc.LaunchTemplate.Names
use dc.LaunchTemplate.Names.{Field, legacy_attribute_name}
use dc.LaunchTemplate.Load.{
  clone_some, Metadata, load_metadata, load_version_data, version_attributes, legacy_attributes,
  resolve_version_selector, find_by_name, resolve_reference,
}

abbrev attribute : String → String → Attribute
attribute k v = record { key = k; value = v }

pub record CreateRequest (R : Type 0) : Type 0 where
  pub name : String
  pub template_data : TemplateData R

pub record VersionRequest (R : Type 0) : Type 0 where
  pub dry_run : Bool
  pub id : String
  pub name : String
  pub source_version : Option String
  pub version_description : Option String
  pub template_data : TemplateData R

pub record ModifyRequest : Type 0 where
  pub dry_run : Bool
  pub id : String
  pub name : String
  pub set_default_version : String

pub record DeleteRequest : Type 0 where
  pub dry_run : Bool
  pub id : String
  pub name : String

abbrev or_text : String → String → String
or_text s d = if s == "" then d else s

abbrev or_list : {A : Type 0} → List A → List A → List A
or_list [] ys = ys
or_list (x ∷ xs) ys = x ∷ xs

abbrev or_some : {A : Type 0} → Option A → Option A → Option A
or_some none o = o
or_some (some a) o = some a

-- `meta.LatestVersion + 1`
abbrev next_version : Metadata → ℤ
next_version meta = wrap64 (meta.latest_version +ℤ pos 1)

module _ {R : Type 0} (json : Json R) (is_time : String → Bool) where
  -- The name must be free: an error that says so is what is wanted.
  name_is_free : Storage → String → Result (Unit {0})
  name_is_free s name = elim (find_by_name json is_time s name) [
    | ok t ↦ err (with_code "AlreadyExists")
    | err e ↦ if is_not_found e then ok tt else err e
  ]

  first_version : TemplateData R → Option R → String → VersionData R
  first_version d requirements now = record {
    version = pos 1;
    image_id = d.image_id;
    instance_requirements = requirements;
    instance_kind = d.instance_kind;
    user_data = d.user_data;
    security_group_ids = d.security_group_ids;
    block_device_mappings = d.block_device_mappings;
    version_description = none;
    create_time = some now;
  }

  creation_attributes : String → VersionData R → String → List Attribute
  creation_attributes name d now =
      attribute Names.template_name name
        ∷ attribute Names.template_create_time now
        ∷ attribute Names.default_version "1"
        ∷ attribute Names.latest_version "1"
        ∷ version_attributes json d
      ++ legacy_attributes json d

  -- What follows the registration; its errors leave the template registered.
  save_first : String → CreateRequest R → String → Exec Storage String
  unfolding first_version creation_attributes
  save_first now r id s =
      elim (clone_some json.requirements r.template_data.instance_requirements) [
        | err e ↦ (s, err (wrapped e))
        | ok q ↦
            let d = first_version r.template_data q now in
            Exec.checked (set_resource_attributes id (creation_attributes r.name d now))
              (Exec.pure id) s
      ]

  -- What dispatchCreateLaunchTemplate checks before it changes anything.
  creatable : CreateRequest R → Storage → Result (Unit {0})
  unfolding name_is_free
  creatable r s = do
    fail_if (launch_template_data_is_empty r.template_data)
        (invalid_parameter_value "LaunchTemplateData")
    validate_launch_template_data r.template_data
    name_is_free s r.name

  -- dispatchCreateLaunchTemplate; makeID's answer comes in, and the new id goes out.
  unfoldable pub create_launch_template :
      Option String → String → CreateRequest R → Exec Storage String
  unfolding creatable save_first
  create_launch_template new_id now r s = elim (creatable r s) [
    | err e ↦ (s, err e)
    | ok u ↦ elim new_id [
      | none ↦ (s, err (wrapped (plain "id")))
      | some id ↦
          Exec.checked (register_resource (record { type = launch_template_type; id = id }))
            (save_first now r id) s
    ]
  ]

  -- The data that a new version starts from: none, or that of the source version.
  source_data : Storage → Metadata → Option String → Result (Option (VersionData R))
  source_data s meta none = ok none
  source_data s meta (some selector) = if selector == "" then ok none else (do
    version ←
        resolve_version_selector selector meta.default_version meta.latest_version "SourceVersion"
    d ← load_version_data json is_time s meta.id version
    requirements ← wrap (clone_some json.requirements d.instance_requirements)
    ok (some (record d { instance_requirements = requirements })))

  -- What the request sets, over the source.
  merged :
      Option (VersionData R)
      → TemplateData R
      → Option R
      → ℤ
      → Option String
      → String
      → VersionData R
  merged none d requirements version description now = record {
    version = version;
    image_id = d.image_id;
    instance_requirements = requirements;
    instance_kind = d.instance_kind;
    user_data = d.user_data;
    security_group_ids = d.security_group_ids;
    block_device_mappings = d.block_device_mappings;
    version_description = description;
    create_time = some now;
  }
  merged (some x) d requirements version description now = record {
    version = version;
    image_id = or_text d.image_id x.image_id;
    instance_requirements = or_some requirements x.instance_requirements;
    instance_kind = or_text d.instance_kind x.instance_kind;
    user_data = or_text d.user_data x.user_data;
    security_group_ids = or_list d.security_group_ids x.security_group_ids;
    block_device_mappings = or_list d.block_device_mappings x.block_device_mappings;
    version_description = description;
    create_time = some now;
  }

  -- Everything that dispatchCreateLaunchTemplateVersion does before it writes.
  new_version : String → VersionRequest R → Storage → Result (String × VersionData R)
  unfolding source_data merged
  new_version now r s = do
    fail_if r.dry_run Error.dry_run
    validate_launch_template_data r.template_data
    id ← resolve_reference json is_time s r.id r.name
    meta ← load_metadata is_time s id
    source ← source_data s meta r.source_version
    requirements ← wrap (clone_some json.requirements r.template_data.instance_requirements)
    fail_if (not (is_some r.source_version) && launch_template_data_is_empty r.template_data)
        (invalid_parameter_value "LaunchTemplateData")
    ok (
      id,
      merged source r.template_data requirements (next_version meta) r.version_description now,
    )

  version_write : VersionData R → List Attribute
  version_write d =
      attribute Names.latest_version (format_int 10 d.version) ∷ version_attributes json d

  -- dispatchCreateLaunchTemplateVersion; the new version goes out.
  unfoldable pub create_launch_template_version :
      String → VersionRequest R → Exec Storage (VersionData R)
  unfolding new_version version_write
  create_launch_template_version now r s = elim (new_version now r s) [
    | err e ↦ (s, err e)
    | ok (id, d) ↦ Exec.checked (set_resource_attributes id (version_write d)) (Exec.pure d) s
  ]

  -- Everything that dispatchModifyLaunchTemplate does before it writes.
  new_default : ModifyRequest → Storage → Result (Metadata × VersionData R)
  new_default r s = do
    fail_if r.dry_run Error.dry_run
    fail_if (r.set_default_version == "") (invalid_parameter_value "SetDefaultVersion")
    id ← resolve_reference json is_time s r.id r.name
    meta ← load_metadata is_time s id
    version ←
        resolve_version_selector r.set_default_version meta.default_version meta.latest_version
          "SetDefaultVersion"
    d ← load_version_data json is_time s id version
    ok (record meta { default_version = version }, d)

  legacy_names : List Attribute
  legacy_names = map (λ (f : Field). attribute (legacy_attribute_name f) "") Names.fields

  default_write : Metadata → VersionData R → List Attribute
  default_write meta d =
      attribute Names.default_version (format_int 10 meta.default_version)
      ∷ legacy_attributes json d

  -- dispatchModifyLaunchTemplate
  unfoldable pub modify_launch_template : ModifyRequest → Exec Storage Metadata
  unfolding new_default default_write legacy_names
  modify_launch_template r s = elim (new_default r s) [
    | err e ↦ (s, err e)
    | ok (meta, d) ↦
        Exec.checked (remove_resource_attributes meta.id legacy_names)
          (Exec.checked (set_resource_attributes meta.id (default_write meta d)) (Exec.pure meta)) s
  ]

  -- Everything that dispatchDeleteLaunchTemplate does before it writes.
  deleted : DeleteRequest → Storage → Result Metadata
  deleted r s = do
    fail_if r.dry_run Error.dry_run
    id ← resolve_reference json is_time s r.id r.name
    load_metadata is_time s id

  -- dispatchDeleteLaunchTemplate
  unfoldable pub delete_launch_template : DeleteRequest → Exec Storage Metadata
  unfolding deleted
  delete_launch_template r s = elim (deleted r s) [
    | err e ↦ (s, err e)
    | ok meta ↦ Exec.checked (remove_resource meta.id) (Exec.pure meta) s
  ]
