-- ===== src/LaunchTemplate/Load.antt =====
-- Reading a launch template back from its attributes, and writing a version's attributes.
use dc.Prelude.{
  String, Bool, ◌&&◌, ◌||◌, Option, none, some, List, [], ◌∷◌, ◌++◌, ◌==◌, if◌then◌else◌,
}
use dc.Dispatcher.{find_resource}
use dc.Prelude.Text.{trim_space}
use dc.Prelude.Int.{ℤ, pos, leb_ℤ, ltb_ℤ}
use dc.Prelude.Strconv.{format_int, parse_int}
use dc.Api.{
  Error, Result, ok, err, ◌>>=◌, ◌>>◌, fail_if, plain, wrapped, with_code, is_not_found,
  invalid_parameter_value, resource_not_found,
}
use dc.Storage.{
  Storage, Attribute, Attributes, Resource, launch_template_type, registered_resources,
  resource_attributes, key_or_empty,
}
use dc.LaunchTemplate.{not, Codec, Json, VersionData, field_text}
use dc.LaunchTemplate.Names
use dc.LaunchTemplate.Names.{Field, version_attribute_name, legacy_attribute_name}

-- launchTemplateMetadata
pub record Metadata : Type 0 where
  pub id : String
  pub name : String
  pub create_time : Option String
  pub default_version : ℤ
  pub latest_version : ℤ

abbrev pub validation_error : Error
validation_error = with_code "ValidationError"

abbrev pub is_one : ℤ → Bool
is_one v = leb_ℤ v (pos 1) && leb_ℤ (pos 1) v

-- A version number that is stored, 1 if there is none.
unfoldable pub read_version : Attributes → String → Result ℤ
read_version attrs key =
    let raw = key_or_empty attrs key in
    if raw == ""
    then ok (pos 1)
    else elim (parse_int 10 raw) [ none ↦ err (wrapped (plain "version")) | some v ↦ ok v ]

-- A time that is stored; `is_time` says which texts time.Parse reads.
unfoldable pub read_time : (String → Bool) → Attributes → String → Result (Option String)
read_time is_time attrs key =
    let raw = key_or_empty attrs key in
    if raw == ""
    then ok none
    else if is_time raw
    then ok (some raw)
    else err (wrapped (plain "time"))

unfoldable pub metadata_from : (String → Bool) → String → Attributes → Result Metadata
metadata_from is_time id attrs = do
  fail_if (key_or_empty attrs Names.template_name == "") (plain "missing name")
  default ← read_version attrs Names.default_version
  latest ← read_version attrs Names.latest_version
  create_time ← read_time is_time attrs Names.template_create_time
  ok (record {
    id = id;
    name = key_or_empty attrs Names.template_name;
    create_time = create_time;
    default_version = default;
    latest_version = latest;
  })

-- loadLaunchTemplateMetadata
unfoldable pub load_metadata : (String → Bool) → Storage → String → Result Metadata
load_metadata is_time s id = elim (resource_attributes s id) [
  | err e ↦ err (if is_not_found e then validation_error else wrapped e)
  | ok attrs ↦ metadata_from is_time id attrs
]

-- The raw text of a field; version 1 falls back on the legacy attribute.
unfoldable pub raw_field : Attributes → ℤ → Field → String
raw_field attrs version f =
    let own = key_or_empty attrs (version_attribute_name version f) in
    if is_one version && own == "" then key_or_empty attrs (legacy_attribute_name f) else own

-- unmarshalStringSlice, unmarshalBlockDeviceMappings
abbrev pub unmarshal_list : {A : Type 0} → Codec (List A) → String → Result (List A)
unmarshal_list c raw =
    if raw == ""
    then ok []
    else elim (c.unmarshal raw) [ none ↦ err (wrapped (plain "json")) | some xs ↦ ok xs ]

-- unmarshalInstanceRequirements
abbrev pub unmarshal_some : {A : Type 0} → Codec A → String → Result (Option A)
unmarshal_some c raw =
    if raw == ""
    then ok none
    else elim (c.unmarshal raw) [ none ↦ err (wrapped (plain "json")) | some a ↦ ok (some a) ]

-- cloneInstanceRequirements: there and back through JSON
abbrev pub clone_some : {A : Type 0} → Codec A → Option A → Result (Option A)
clone_some c none = ok none
clone_some c (some a) = elim (c.marshal a) [
  | none ↦ err (wrapped (plain "json"))
  | some raw ↦ unmarshal_some c raw
]

abbrev optional : String → Option String
optional s = if s == "" then none else some s

module _ {R : Type 0} (json : Json R) where
  unfoldable pub version_data_from : (String → Bool) → ℤ → Attributes → Result (VersionData R)
  version_data_from is_time version attrs = do
    groups ← unmarshal_list json.strings (raw_field attrs version Names.security_group_ids)
    requirements ←
        unmarshal_some json.requirements (raw_field attrs version Names.instance_requirements)
    mappings ← unmarshal_list json.mappings (raw_field attrs version Names.block_device_mappings)
    create_time ← read_time is_time attrs (Names.create_time_name version)
    ok (record {
      version = version;
      image_id = raw_field attrs version Names.image_id;
      instance_requirements = requirements;
      instance_kind = raw_field attrs version Names.instance_kind;
      user_data = raw_field attrs version Names.user_data;
      security_group_ids = groups;
      block_device_mappings = mappings;
      version_description = optional (key_or_empty attrs (Names.description_name version));
      create_time = create_time;
    })

  -- loadLaunchTemplateVersionData
  unfoldable pub load_version_data : (String → Bool) → Storage → String → ℤ → Result (VersionData R)
  load_version_data is_time s id version = elim (resource_attributes s id) [
    | err e ↦ err (wrapped e)
    | ok attrs ↦ version_data_from is_time version attrs
  ]

  -- The attributes of the fields that have a text, under the names that `name` gives.
  unfoldable pub field_attributes : (Field → String) → VersionData R → List Field → List Attribute
  field_attributes name d [] = []
  field_attributes name d (f ∷ fs) =
      let rest = field_attributes name d fs in
      let text = field_text json d f in
      if text == "" then rest else record { key = name f; value = text } ∷ rest

  abbrev pub option_attribute : String → Option String → List Attribute
  option_attribute key none = []
  option_attribute key (some v) = record { key = key; value = v } ∷ []

  -- launchTemplateVersionAttributes
  unfoldable pub version_attributes : VersionData R → List Attribute
  version_attributes d =
      field_attributes (version_attribute_name d.version) d Names.fields
      ++ option_attribute (Names.description_name d.version) d.version_description
      ++ option_attribute (Names.create_time_name d.version) d.create_time

  -- legacyLaunchTemplateAttributes
  unfoldable pub legacy_attributes : VersionData R → List Attribute
  legacy_attributes d = field_attributes legacy_attribute_name d Names.fields

-- resolveLaunchTemplateVersionSelector
unfoldable pub resolve_version_selector : String → ℤ → ℤ → String → Result ℤ
resolve_version_selector selector default latest param =
    if selector == "" || selector == "$Default"
    then ok default
    else if selector == "$Latest"
    then ok latest
    else elim (parse_int 10 selector) [
      | none ↦ err (invalid_parameter_value param)
      | some n ↦
          if leb_ℤ n (pos 0) || ltb_ℤ latest n then err (invalid_parameter_value param) else ok n
    ]

-- parseNumericLaunchTemplateVersion
unfoldable pub parse_numeric_version : String → String → Result ℤ
parse_numeric_version raw param = elim (parse_int 10 raw) [
  | none ↦ err (invalid_parameter_value param)
  | some n ↦ if leb_ℤ n (pos 0) then err (invalid_parameter_value param) else ok n
]

-- launchTemplateData: a template at one of its versions
pub record Template (R : Type 0) : Type 0 where
  pub id : String
  pub name : String
  pub version : String
  pub version_data : VersionData R

module _ {R : Type 0} (json : Json R) (is_time : String → Bool) (s : Storage) where
  -- loadLaunchTemplateData
  unfoldable pub load_template : String → String → Result (Template R)
  load_template id selector = do
    meta ← load_metadata is_time s id
    version ← resolve_version_selector selector meta.default_version meta.latest_version "Version"
    d ← load_version_data json is_time s id version
    ok (record { id = id; name = meta.name; version = format_int 10 version; version_data = d })

  -- The walk over the templates in findLaunchTemplateByName.
  find_named : String → List Resource → Result (Template R)
  find_named name [] = err (resource_not_found name)
  find_named name (r ∷ rs) =
      let rest = find_named name rs in
      load_metadata is_time s r.id >>= λ meta.
      if meta.name == name then load_template r.id "" else rest

  -- findLaunchTemplateByName
  unfoldable pub find_by_name : String → Result (Template R)
  unfolding find_named
  find_by_name name = find_named name (registered_resources s launch_template_type)

  -- findLaunchTemplateByID
  unfoldable pub find_by_id : String → Result (Template R)
  find_by_id id = elim (find_resource s launch_template_type id) [
    | err e ↦ err (if is_not_found e then validation_error else e)
    | ok r ↦ load_template id ""
  ]

  -- resolveLaunchTemplateReference; a nil pointer reads as the empty text.
  unfoldable pub resolve_reference : String → String → Result String
  resolve_reference raw_id raw_name =
      let id = trim_space raw_id in
      let name = trim_space raw_name in
      if not (id == "") && not (name == "")
      then err validation_error
      else if not (id == "")
      then (find_by_id id >>= λ t. ok id)
      else if not (name == "")
      then elim (find_by_name name) [
        | err e ↦ err (if is_not_found e then validation_error else e)
        | ok t ↦ ok t.id
      ]
      else err validation_error
