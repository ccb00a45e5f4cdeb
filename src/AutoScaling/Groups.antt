-- ===== src/AutoScaling/Groups.antt =====
-- pkg/dc2/dispatcher_autoscaling.go: the data of an Auto Scaling group, how it is checked, and how
-- the attributes of a resource are read for it.
use dc.Prelude.{String, Bool, ◌||◌, Option, none, some, List, [], ◌∷◌, ◌==◌, if◌then◌else◌}
use dc.Prelude.Int.{ℤ, pos, ltb_ℤ}
use dc.Prelude.Text.{trim_space}
use dc.Prelude.Commas.{split_commas}
use dc.Prelude.Strconv.{parse_bool, parse_int}
use dc.Api.{Result, ok, err, ◌>>=◌, ◌>>◌, fail_if, plain, wrapped, invalid_parameter_value}
use dc.Storage.{Attributes, key_or_empty}
use dc.LaunchTemplate.{BlockDeviceMapping, Codec}
use dc.LaunchTemplate.Load.{validation_error}
use dc.LaunchTemplate.Find.{Specification}

-- AutoScalingMixedInstancesInstancesDistribution
pub record Distribution : Type 0 where
  pub on_demand_allocation_strategy : Option String
  pub on_demand_base_capacity : Option ℤ
  pub on_demand_percentage_above_base_capacity : Option ℤ
  pub spot_allocation_strategy : Option String
  pub spot_instance_pools : Option ℤ
  pub spot_max_price : Option String

-- AutoScalingMixedInstancesLaunchTemplateOverrides
pub record Override (R : Type 0) : Type 0 where
  pub image_id : Option String
  pub instance_requirements : Option R
  pub instance_kind : Option String
  pub specification : Option Specification
  pub weighted_capacity : Option String

-- AutoScalingMixedInstancesLaunchTemplate
pub record PolicyTemplate (R : Type 0) : Type 0 where
  pub specification : Option Specification
  pub overrides : List (Override R)

-- AutoScalingMixedInstancesPolicy
pub record Policy (R : Type 0) : Type 0 where
  pub distribution : Option Distribution
  pub template : Option (PolicyTemplate R)

-- autoScalingGroupData; the time is the text that is stored for it.
pub record Group (R : Type 0) : Type 0 where
  pub name : String
  pub min_size : ℤ
  pub max_size : ℤ
  pub desired_capacity : ℤ
  pub created_time : String
  pub template_id : String
  pub template_name : String
  pub template_version : String
  pub image_id : String
  pub instance_kind : String
  pub user_data : String
  pub block_device_mappings : List BlockDeviceMapping
  pub policy : Option (Policy R)
  pub availability_zones : List String
  pub vpc_zone_identifier : Option String
  pub default_cooldown : ℤ
  pub health_check_kind : String
  pub warm_pool_enabled : Bool
  pub warm_pool_min_size : ℤ
  pub warm_pool_max_prepared : Option ℤ
  pub warm_pool_state : String
  pub warm_pool_status : String
  pub warm_pool_reuse : Option Bool

-- encoding/json for the two fields that are stored as JSON
pub record GroupJson (R : Type 0) : Type 0 where
  pub policy : Codec (Policy R)
  pub mappings : Codec (List BlockDeviceMapping)

abbrev pub pool_stopped : String
pool_stopped = "Stopped"

abbrev pub pool_running : String
pool_running = "Running"

abbrev pub pool_hibernated : String
pool_hibernated = "Hibernated"

abbrev pub pool_active : String
pool_active = "Active"

abbrev pub pool_pending_delete : String
pool_pending_delete = "PendingDelete"

unfoldable pub validate_group_sizes : ℤ → ℤ → Result (Unit {0})
validate_group_sizes min_size max_size = do
  fail_if (ltb_ℤ min_size (pos 0)) validation_error
  fail_if (ltb_ℤ max_size (pos 0)) validation_error
  fail_if (ltb_ℤ max_size min_size) validation_error

unfoldable pub validate_desired_capacity : ℤ → ℤ → ℤ → Result (Unit {0})
validate_desired_capacity desired min_size max_size =
    fail_if (ltb_ℤ desired min_size || ltb_ℤ max_size desired) validation_error

-- parseRequiredIntAttribute
unfoldable pub required_int : Attributes → String → Result ℤ
required_int attrs key =
    let v = key_or_empty attrs key in
    if v == ""
    then err (plain "missing")
    else elim (parse_int 10 v) [ none ↦ err (wrapped (plain "syntax")) | some i ↦ ok i ]

-- parseOptionalIntPtrAttribute
unfoldable pub optional_int : Attributes → String → Result (Option ℤ)
optional_int attrs key =
    let v = key_or_empty attrs key in
    if v == ""
    then ok none
    else elim (parse_int 10 v) [ none ↦ err (wrapped (plain "syntax")) | some i ↦ ok (some i) ]

-- parseOptionalBoolPtrAttribute
unfoldable pub optional_bool : Attributes → String → Result (Option Bool)
optional_bool attrs key =
    let v = key_or_empty attrs key in
    if v == ""
    then ok none
    else elim (parse_bool v) [ none ↦ err (wrapped (plain "syntax")) | some b ↦ ok (some b) ]

abbrev pub or_else {ℓ} : {A : Type ℓ} → A → Option A → A
or_else d none = d
or_else d (some a) = a

-- parseOptionalIntAttribute and parseOptionalBoolAttribute
abbrev pub with_fallback {ℓ} : {A : Type ℓ} → A → Result (Option A) → Result A
with_fallback d r = r >>= λ o. ok (or_else d o)

unfoldable pub parse_warm_pool_state : String → Result String
parse_warm_pool_state state =
    if state == pool_stopped || state == pool_running || state == pool_hibernated
    then ok state
    else err (invalid_parameter_value "PoolState")

-- The parts of parseAutoScalingAvailabilityZones, trimmed.
unfoldable pub zone_parts : List String → Result (List String)
zone_parts [] = ok []
zone_parts (p ∷ ps) = do
  fail_if (trim_space p == "") (plain "contains empty availability zone")
  rest ← zone_parts ps
  ok (trim_space p ∷ rest)

-- parseAutoScalingAvailabilityZones
unfoldable pub parse_availability_zones : String → Result (List String)
unfolding zone_parts
parse_availability_zones raw = if trim_space raw == "" then ok [] else zone_parts (split_commas raw)

-- unmarshalAutoScalingMixedInstancesPolicy
unfoldable pub unmarshal_policy : {P : Type 0} → Codec P → String → Result (Option P)
unmarshal_policy codec text =
    let raw = trim_space text in
    if raw == "" || raw == "null"
    then ok none
    else elim (codec.unmarshal raw) [ none ↦ err (plain "json") | some p ↦ ok (some p) ]

-- cloneAutoScalingMixedInstancesPolicy: there and back through JSON
unfoldable pub clone_policy : {P : Type 0} → Codec P → Option P → Result (Option P)
clone_policy codec none = ok none
clone_policy codec (some p) = elim (codec.marshal p) [
  | none ↦ err (plain "json")
  | some raw ↦ unmarshal_policy codec raw
]
