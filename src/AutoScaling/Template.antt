-- ===== src/AutoScaling/Template.antt =====
-- pkg/dc2/dispatcher_autoscaling.go: the launch template and the instance type that a group gets from a
-- request. The search of the catalog for requirements is a parameter.
use Prim.Native.String.{◌++◌ as ◌<>◌}
use dc.Prelude.{
  ℕ, suc, String, Bool, true, false, not, ◌&&◌, Option, none, some, List, [], ◌∷◌, ◌==◌,
  if◌then◌else◌,
}
use dc.Prelude.Int.{ℤ, leb_ℤ}
use dc.Prelude.Text.{trim_space}
use dc.Prelude.Strconv.{format_uint}
use dc.Api.{Error, Result, ok, err, ◌>>=◌, ◌>>◌, fail_if, with_code, invalid_parameter_value}
use dc.Storage.{Storage}
use dc.LaunchTemplate.{BlockDeviceMapping, Ebs, Json}
use dc.LaunchTemplate.Load.{Template, validation_error}
use dc.LaunchTemplate.Find.{Specification, find_launch_template}
use dc.AutoScaling.Groups.{Policy, PolicyTemplate, Override, Group, GroupJson, clone_policy}

-- What the code takes from outside: the JSON codecs of templates and of groups, the texts that are a
-- time, and the instance type that the catalog has for requirements.
pub record Catalog (R : Type 0) : Type 0 where
  pub json : Json R
  pub group_json : GroupJson R
  pub search : R → Option String

trimmed_or_empty : Option String → String
trimmed_or_empty none = ""
trimmed_or_empty (some s) = trim_space s

-- normalizeOptionalString
unfoldable pub normalize_optional_string : Option String → Option String
unfolding trimmed_or_empty
normalize_optional_string v = if trimmed_or_empty v == "" then none else some (trimmed_or_empty v)

normalize_zones_from : ℕ → List String → Result (List String)
normalize_zones_from i [] = ok []
normalize_zones_from i (z ∷ zs) = do
  fail_if (trim_space z == "")
      (invalid_parameter_value ("AvailabilityZones.member." <> format_uint 10 (suc i)))
  rest ← normalize_zones_from (suc i) zs
  ok (trim_space z ∷ rest)

-- normalizeAutoScalingAvailabilityZones
unfoldable pub normalize_availability_zones : List String → Result (List String)
unfolding normalize_zones_from
normalize_availability_zones zs = normalize_zones_from 0 zs

same {ℓ} : {A : Type ℓ} → (A → A → Bool) → Option A → Option A → Bool
same eq none none = true
same eq (some a) (some b) = eq a b
same eq _ _ = false

abbrev same_int : ℤ → ℤ → Bool
same_int a b = leb_ℤ a b && leb_ℤ b a

abbrev same_bool : Bool → Bool → Bool
same_bool a b = if a then b else not b

same_ebs : Ebs → Ebs → Bool
unfolding same
same_ebs a b =
    same_bool a.delete_on_termination b.delete_on_termination
    && same_bool a.encrypted b.encrypted
    && same same_int a.iops b.iops
    && same (λ (k l : String). k == l) a.kms_key_id b.kms_key_id
    && same same_int a.throughput b.throughput
    && same same_int a.volume_size b.volume_size
    && a.volume_type == b.volume_type

-- reflect.DeepEqual
unfoldable pub same_mappings : List BlockDeviceMapping → List BlockDeviceMapping → Bool
unfolding same same_ebs
same_mappings [] [] = true
same_mappings (a ∷ as') (b ∷ bs) =
    a.device_name == b.device_name && same same_ebs a.ebs b.ebs && same_mappings as' bs
same_mappings _ _ = false

-- autoScalingGroupLaunchTemplateChanged
unfoldable pub launch_template_changed : {R : Type 0} → Group R → Template R → String → Bool
launch_template_changed g t kind = not (
    g.template_id == t.id
    && g.template_name == t.name
    && g.template_version == t.version
    && g.image_id == t.version_data.image_id
    && g.instance_kind == kind
    && g.user_data == t.version_data.user_data
    && same_mappings g.block_device_mappings t.version_data.block_device_mappings)

abbrev specification_of : {R : Type 0} → Policy R → Option Specification
specification_of p = elim p.template [ none ↦ none | some t ↦ t.specification ]

abbrev overrides_of : {R : Type 0} → Option (PolicyTemplate R) → List (Override R)
overrides_of none = []
overrides_of (some t) = t.overrides

abbrev linked_to : {R : Type 0} → Template R → Specification
linked_to t = record { id = some t.id; name = some t.name; version = some t.version }

module _ {R : Type 0} (c : Catalog R) where
  -- normalizeAutoScalingMixedInstancesPolicy; a clone that is nil is dereferenced.
  normalize_policy : Policy R → Template R → Result (Policy R)
  normalize_policy p t = clone_policy c.group_json.policy (some p) >>= λ cloned. elim cloned [
    | none ↦ err Error.panics
    | some q ↦ ok (record q {
      template =
          some (record { specification = some (linked_to t); overrides = overrides_of q.template });
    })
  ]

  -- resolveAutoScalingGroupLaunchTemplate
  unfoldable pub resolve_launch_template :
      (String → Bool)
      → Option Specification
      → Option (Policy R)
      → Storage
      → Result (Template R × Option (Policy R))
  unfolding normalize_policy
  resolve_launch_template is_time (some spec) (some p) s =
      err (with_code "InvalidParameterCombination")
  resolve_launch_template is_time none (some p) s = elim (specification_of p) [
    | none ↦ err validation_error
    | some spec ↦ (do
      t ← find_launch_template c.json is_time spec s
      q ← normalize_policy p t
      ok (t, some q))
  ]
  resolve_launch_template is_time none none s = err validation_error
  resolve_launch_template is_time (some spec) none s = do
    t ← find_launch_template c.json is_time spec s
    ok (t, none)

  -- resolveAutoScalingInstanceTypeFromRequirements
  resolve_from_requirements : R → Result String
  resolve_from_requirements r = elim (c.search r) [
    | none ↦ err validation_error
    | some kind ↦ ok kind
  ]

  resolve_requirements : Option R → Result String
  unfolding resolve_from_requirements
  resolve_requirements none = ok ""
  resolve_requirements (some r) = resolve_from_requirements r

  -- The loop of resolveAutoScalingMixedInstancesPolicyInstanceType; "" if it finds none.
  resolve_overrides : List (Override R) → Result String
  unfolding resolve_requirements trimmed_or_empty
  resolve_overrides [] = ok ""
  resolve_overrides (v ∷ vs) =
      let rest = resolve_overrides vs in
      if not (trimmed_or_empty v.instance_kind == "")
      then ok (trimmed_or_empty v.instance_kind)
      else resolve_requirements v.instance_requirements >>= λ kind.
          if kind == "" then rest else ok kind

  resolve_policy_kind : Option (Policy R) → Result String
  unfolding resolve_overrides
  resolve_policy_kind none = ok ""
  resolve_policy_kind (some p) = resolve_overrides (overrides_of p.template)

  -- resolveAutoScalingGroupInstanceType
  unfoldable pub resolve_instance_kind : Template R → Option (Policy R) → Result String
  unfolding resolve_policy_kind resolve_requirements
  resolve_instance_kind t p = resolve_policy_kind p >>= λ kind.
      if not (kind == "")
      then ok kind
      else if not (t.version_data.instance_kind == "")
      then ok t.version_data.instance_kind
      else resolve_requirements t.version_data.instance_requirements
