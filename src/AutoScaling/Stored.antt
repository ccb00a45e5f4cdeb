-- ===== src/AutoScaling/Stored.antt =====
-- pkg/dc2/dispatcher_autoscaling.go: loadAutoScalingGroupData and saveAutoScalingGroupData, which keep
-- the data of a group in the attributes of a resource.
pub mod Fields
pub mod Values
pub mod Loaded
pub mod RoundTrip
pub mod Sizes
use dc.Prelude.{
  String, Bool, false, not, ◌&&◌, ◌||◌, Option, none, some, List, [], ◌∷◌, ◌++◌, ◌==◌,
  if◌then◌else◌,
}
use dc.Prelude.Int.{ℤ, pos}
use dc.Prelude.Commas.{join_commas}
use dc.Prelude.Strconv.{format_int, format_bool}
use dc.Api.{Result, ok, err, ◌>>=◌, ◌>>◌, fail_if, wrap, plain, wrapped, is_not_found}
use dc.Api.Exec
use dc.Api.Exec.{Exec}
use dc.Storage.{
  Storage, Attribute, Attributes, auto_scaling_group_type, resource_attributes,
  set_resource_attributes, find_key, key_or_empty,
}
use dc.Dispatcher.{find_resource}
use dc.LaunchTemplate.{BlockDeviceMapping}
use dc.LaunchTemplate.Load.{validation_error, unmarshal_list}
use dc.AutoScaling.Names
use dc.AutoScaling.Groups.{
  Policy, Group, GroupJson, pool_stopped, pool_active, required_int, optional_int, optional_bool,
  with_fallback, parse_warm_pool_state, parse_availability_zones, unmarshal_policy,
}

abbrev pub attribute : String → String → Attribute
attribute k v = record { key = k; value = v }

pub required_text : Attributes → String → Result String
required_text attrs key =
    let v = key_or_empty attrs key in if v == "" then err (plain "missing") else ok v

abbrev pub text_or_default : String → String → String
text_or_default v d = if v == "" then d else v

module _ {R : Type 0} (json : GroupJson R) (is_time : String → Bool) where
  -- The part of loadAutoScalingGroupData on the attributes of the group.
  pub group_from : String → Attributes → Result (Group R)
  unfolding required_text
  group_from name attrs = do
    min_size ← required_int attrs Names.min_size
    max_size ← required_int attrs Names.max_size
    desired ← required_int attrs Names.desired_capacity
    created ← required_text attrs Names.created_time
    fail_if (not (is_time created)) (wrapped (plain "time"))
    template_id ← required_text attrs Names.launch_template_id
    template_name ← required_text attrs Names.launch_template_name
    mappings ← wrap (unmarshal_list json.mappings (key_or_empty attrs Names.block_device_mappings))
    policy ← wrap (unmarshal_policy json.policy (key_or_empty attrs Names.mixed_instances_policy))
    zones ← wrap (parse_availability_zones (key_or_empty attrs Names.availability_zones))
    cooldown ← required_int attrs Names.default_cooldown
    enabled ← with_fallback false (optional_bool attrs Names.warm_pool_enabled)
    pool_min ← with_fallback (pos 0) (optional_int attrs Names.warm_pool_min_size)
    prepared ← optional_int attrs Names.warm_pool_max_group_prepared_capacity
    state ←
        parse_warm_pool_state
          (text_or_default (key_or_empty attrs Names.warm_pool_state) pool_stopped)
    reuse ← optional_bool attrs Names.warm_pool_reuse_on_scale_in
    let status = key_or_empty attrs Names.warm_pool_status
    ok (record {
      name = name;
      min_size = min_size;
      max_size = max_size;
      desired_capacity = desired;
      created_time = created;
      template_id = template_id;
      template_name = template_name;
      template_version = text_or_default (key_or_empty attrs Names.launch_template_version) "1";
      image_id = key_or_empty attrs Names.image_id;
      instance_kind = key_or_empty attrs Names.template_instance_kind;
      user_data = key_or_empty attrs Names.user_data;
      block_device_mappings = mappings;
      policy = policy;
      availability_zones = zones;
      vpc_zone_identifier = find_key attrs Names.vpc_zone_identifier;
      default_cooldown = cooldown;
      health_check_kind = text_or_default (key_or_empty attrs Names.health_check_kind) "EC2";
      warm_pool_enabled = enabled;
      warm_pool_min_size = pool_min;
      warm_pool_max_prepared = prepared;
      warm_pool_state = state;
      warm_pool_status = if enabled && status == "" then pool_active else status;
      warm_pool_reuse = reuse;
    })

  -- loadAutoScalingGroupData
  unfoldable pub load_group : String → Storage → Result (Group R)
  unfolding group_from
  load_group name s = elim (find_resource s auto_scaling_group_type name) [
    | err e ↦ err (if is_not_found e then validation_error else e)
    | ok r ↦ wrap (resource_attributes s name) >>= group_from name
  ]

abbrev some_int : Option ℤ → String
some_int none = ""
some_int (some i) = format_int 10 i

abbrev some_bool : Option Bool → String
some_bool none = ""
some_bool (some b) = format_bool b

module _ {R : Type 0} (json : GroupJson R) where
  pub policy_text : Option (Policy R) → Result String
  policy_text none = ok ""
  policy_text (some p) = elim (json.policy.marshal p) [
    | none ↦ err (wrapped (plain "json"))
    | some raw ↦ ok raw
  ]

  pub mapping_attributes : List BlockDeviceMapping → Result (List Attribute)
  mapping_attributes [] = ok []
  mapping_attributes (m ∷ ms) = elim (json.mappings.marshal (m ∷ ms)) [
    | none ↦ err (wrapped (wrapped (plain "json")))
    | some raw ↦ ok (attribute Names.block_device_mappings raw ∷ [])
  ]

  pub zone_attributes : List String → List Attribute
  zone_attributes [] = []
  zone_attributes (z ∷ zs) = attribute Names.availability_zones (join_commas (z ∷ zs)) ∷ []

  pub vpc_attributes : Option String → List Attribute
  vpc_attributes none = []
  vpc_attributes (some v) = attribute Names.vpc_zone_identifier v ∷ []

  -- The attributes that every group has.
  pub fixed_attributes : Group R → String → List Attribute
  fixed_attributes g policy =
      attribute Names.name g.name
      ∷ attribute Names.min_size (format_int 10 g.min_size)
      ∷ attribute Names.max_size (format_int 10 g.max_size)
      ∷ attribute Names.desired_capacity (format_int 10 g.desired_capacity)
      ∷ attribute Names.created_time g.created_time
      ∷ attribute Names.launch_template_id g.template_id
      ∷ attribute Names.launch_template_name g.template_name
      ∷ attribute Names.launch_template_version g.template_version
      ∷ attribute Names.image_id g.image_id
      ∷ attribute Names.template_instance_kind g.instance_kind
      ∷ attribute Names.user_data g.user_data
      ∷ attribute Names.mixed_instances_policy policy
      ∷ attribute Names.default_cooldown (format_int 10 g.default_cooldown)
      ∷ attribute Names.health_check_kind g.health_check_kind
      ∷ attribute Names.warm_pool_enabled (format_bool g.warm_pool_enabled)
      ∷ attribute Names.warm_pool_min_size (format_int 10 g.warm_pool_min_size)
      ∷ attribute Names.warm_pool_state g.warm_pool_state
      ∷ attribute Names.warm_pool_status g.warm_pool_status
      ∷ attribute Names.warm_pool_max_group_prepared_capacity (some_int g.warm_pool_max_prepared)
      ∷ attribute Names.warm_pool_reuse_on_scale_in (some_bool g.warm_pool_reuse)
      ∷ []

  group_attributes : Group R → Result (List Attribute)
  unfolding policy_text mapping_attributes zone_attributes vpc_attributes fixed_attributes
  group_attributes g = do
    policy ← policy_text g.policy
    mappings ← mapping_attributes g.block_device_mappings
    ok (
        fixed_attributes g policy
        ++ mappings
        ++ zone_attributes g.availability_zones
        ++ vpc_attributes g.vpc_zone_identifier)

  -- saveAutoScalingGroupData
  unfoldable pub save_group : Group R → Exec Storage (Unit {0})
  unfolding group_attributes
  save_group g s = elim (group_attributes g) [
    | err e ↦ (s, err e)
    | ok attrs ↦ Exec.wrap (set_resource_attributes g.name attrs) s
  ]
