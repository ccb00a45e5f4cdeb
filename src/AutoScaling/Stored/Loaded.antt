-- ===== src/AutoScaling/Stored/Loaded.antt =====
-- The attributes that saveAutoScalingGroupData of pkg/dc2/dispatcher_autoscaling.go writes are read as
-- the group by loadAutoScalingGroupData.
use dc.Prelude.{
  String, ◌≡◌, refl, ◌∙◌, ◌⊎◌, Bool, true, false, ◌&&◌, ◌||◌, Option, none, some, List, [], ◌∷◌,
  All, ◌==◌, Option-cases, inl, inr,
}
use dc.Prelude.Int.{ℤ, IsInt64}
use dc.Prelude.Text.{trim_space}
use dc.Api.{plain, wrapped, Error, ok, err}
use dc.Storage.{Attributes, find_key}
use dc.Storage.View.{last_value, assign, or_else}
use dc.LaunchTemplate.{BlockDeviceMapping}
use dc.LaunchTemplate.Load.{unmarshal_list}
use dc.AutoScaling.Names
use dc.AutoScaling.Groups.{
  required_int, parse_availability_zones, pool_stopped, Policy, Group, GroupJson,
  parse_warm_pool_state, unmarshal_policy,
}
use dc.AutoScaling.Stored.{
  some_bool, some_int, format_bool, format_int, required_text, key_or_empty, policy_text,
  mapping_attributes, fixed_attributes, group_from, text_or_default,
}
use dc.AutoScaling.Stored.Fields.{
  AllInt64, IsZone, required_int-found, optional_int-found, optional_bool-found,
  required_text-found, parse_availability_zones-join_commas,
}
use dc.AutoScaling.Stored.Values.{
  unless_given, attribute_of, zones_text, all_attributes, Differs, plain_value, mappings_value,
  zones_value, vpc_value,
}

-- encoding/json reads back what it wrote; a policy is written as an object and mappings as an array.
pub record IsFaithful {R : Type 0} (json : GroupJson R) : Type 0 where
  pub policy :
      (p : Policy R) (raw : String)
      → json.policy.marshal p ≡ some raw
      → (trim_space raw ≡ raw)
        × ((raw == "" || raw == "null") ≡ false)
        × (json.policy.unmarshal raw ≡ some p)
  pub mappings :
      (ms : List BlockDeviceMapping) (raw : String)
      → json.mappings.marshal ms ≡ some raw
      → ((raw == "") ≡ false) × (json.mappings.unmarshal raw ≡ some ms)

-- The group as a load gives it: a warm pool without a state, as clearWarmPoolConfiguration leaves it, is
-- loaded as Stopped.
abbrev pub as_loaded : {R : Type 0} → Group R → Group R
as_loaded g = record g { warm_pool_state = text_or_default g.warm_pool_state pool_stopped }

-- What the stored texts can hold of a group. The handlers do not take care of all of it: a zone with a
-- comma in its name, which normalizeAutoScalingAvailabilityZones accepts, is loaded as two zones.
pub record IsStorable {R : Type 0} (is_time : String → Bool) (g : Group R) : Type 0 where
  pub min_size : IsInt64 g.min_size
  pub max_size : IsInt64 g.max_size
  pub desired_capacity : IsInt64 g.desired_capacity
  pub default_cooldown : IsInt64 g.default_cooldown
  pub warm_pool_min_size : IsInt64 g.warm_pool_min_size
  pub warm_pool_max_prepared : AllInt64 g.warm_pool_max_prepared
  pub created_time : (g.created_time == "") ≡ false
  pub time : is_time g.created_time ≡ true
  pub template_id : (g.template_id == "") ≡ false
  pub template_name : (g.template_name == "") ≡ false
  pub template_version : (g.template_version == "") ≡ false
  pub health_check_kind : (g.health_check_kind == "") ≡ false
  pub state :
      parse_warm_pool_state (text_or_default g.warm_pool_state pool_stopped)
      ≡ ok (text_or_default g.warm_pool_state pool_stopped)
  pub status : (g.warm_pool_enabled && g.warm_pool_status == "") ≡ false
  pub zones : All IsZone g.availability_zones

-- An attribute that the group does not have was not there before.
abbrev pub Leaves {ℓ} : {A : Type ℓ} → List A → Option String → Type 0
Leaves [] o = o ≡ none
Leaves (x ∷ xs) o = Unit

abbrev pub LeavesOption : Option String → Option String → Type 0
LeavesOption none o = o ≡ none
LeavesOption (some v) o = Unit

pub record IsFresh {R : Type 0} (g : Group R) (old : Attributes) : Type 0 where
  pub mappings : Leaves g.block_device_mappings (find_key old Names.block_device_mappings)
  pub zones : Leaves g.availability_zones (find_key old Names.availability_zones)
  pub vpc : LeavesOption g.vpc_zone_identifier (find_key old Names.vpc_zone_identifier)

abbrev mappings_text : {R : Type 0} → GroupJson R → List BlockDeviceMapping → Option String
mappings_text json [] = none
mappings_text json (m ∷ ms) = json.mappings.marshal (m ∷ ms)

with_old : (o p old : Option String) → o ≡ p → or_else o old ≡ unless_given p old
with_old o none old h = rw h refl
with_old o (some v) old h = rw h refl

module _ {R : Type 0} (json : GroupJson R) (faithful : IsFaithful json)
    (is_time : String → Bool) where
  -- What a policy is written as is read as the policy.
  pub policy-cases :
      (p : Option (Policy R))
      → ((e : Error) × (policy_text json p ≡ err e))
        ⊎ ((raw : String) × (policy_text json p ≡ ok raw)
            × (unmarshal_policy json.policy raw ≡ ok p))
  unfolding policy_text unmarshal_policy trim_space
  policy-cases none = inr ("", refl, refl)
  policy-cases (some p) = elim (Option-cases (json.policy.marshal p)) [
    | inl e ↦ inl (wrapped (plain "json"), rw (e, policy_text) refl)
    | inr (raw, e) ↦
        let (t, b, u) = faithful.policy p raw e in
        inr (raw, rw (e, policy_text) refl, rw (t, b, u) refl)
  ]

  pub mappings-cases :
      (ms : List BlockDeviceMapping)
      → ((e : Error) × (mapping_attributes json ms ≡ err e))
        ⊎ ((m : Option String) × (mapping_attributes json ms
              ≡ ok (attribute_of Names.block_device_mappings m))
            × ((attrs : Attributes) (o : Option String)
                → Leaves ms o
                → find_key attrs Names.block_device_mappings ≡ unless_given m o
                → unmarshal_list json.mappings (key_or_empty attrs Names.block_device_mappings)
                  ≡ ok ms))
  unfolding mapping_attributes
  mappings-cases [] = inr (none, refl, λ attrs o l f. rw (f, l) refl)
  mappings-cases (m ∷ ms) = elim (Option-cases (json.mappings.marshal (m ∷ ms))) [
    | inl e ↦ inl (wrapped (wrapped (plain "json")), rw (e, mapping_attributes) refl)
    | inr (raw, e) ↦
        let (b, u) = faithful.mappings (m ∷ ms) raw e in
        inr (some raw, rw (e, mapping_attributes) refl, λ attrs o l f. rw (f, b, u) refl)
  ]

  zones-read :
      (zs : List String) (attrs : Attributes) (o : Option String)
      → All IsZone zs
      → Leaves zs o
      → find_key attrs Names.availability_zones ≡ unless_given (zones_text zs) o
      → parse_availability_zones (key_or_empty attrs Names.availability_zones) ≡ ok zs
  unfolding trim_space
  zones-read [] attrs o h l f = rw (f, l) (unfold parse_availability_zones in refl)
  zones-read (z ∷ zs) attrs o h l f = rw f (parse_availability_zones-join_commas z zs h)

  vpc-read :
      (v : Option String) (attrs : Attributes) (o : Option String)
      → LeavesOption v o
      → find_key attrs Names.vpc_zone_identifier ≡ unless_given v o
      → find_key attrs Names.vpc_zone_identifier ≡ v
  vpc-read none attrs o l f = f ∙ l
  vpc-read (some v) attrs o l f = f

  module _ (g : Group R) (storable : IsStorable is_time g) (policy : String) (m : Option String)
      (attrs old : Attributes)
      (stored : (k : String)
        → find_key attrs k
          ≡ assign
              (all_attributes
                (fixed_attributes json g policy)
                m
                (zones_text g.availability_zones)
                g.vpc_zone_identifier)
              (find_key old)
              k) where
    -- An attribute that every group has.
    fixed :
        (k v : String)
        → Differs Names.block_device_mappings k
        → Differs Names.availability_zones k
        → Differs Names.vpc_zone_identifier k
        → last_value (fixed_attributes json g policy) k ≡ some v
        → find_key attrs k ≡ some v
    fixed k v a b c e =
        stored k
        ∙ rw
            (
              plain_value (fixed_attributes json g policy) m (zones_text g.availability_zones)
                  g.vpc_zone_identifier k a b c,
              e,
            )
            refl

    number :
        (k : String) (i : ℤ)
        → IsInt64 i
        → Differs Names.block_device_mappings k
        → Differs Names.availability_zones k
        → Differs Names.vpc_zone_identifier k
        → last_value (fixed_attributes json g policy) k ≡ some (format_int 10 i)
        → required_int attrs k ≡ ok i
    number k i h a b c e = required_int-found attrs k i h (fixed k (format_int 10 i) a b c e)

    text :
        (k v : String)
        → (v == "") ≡ false
        → Differs Names.block_device_mappings k
        → Differs Names.availability_zones k
        → Differs Names.vpc_zone_identifier k
        → last_value (fixed_attributes json g policy) k ≡ some v
        → required_text attrs k ≡ ok v
    text k v h a b c e = required_text-found attrs k v h (fixed k v a b c e)

    zones_stored :
        find_key attrs Names.availability_zones
        ≡ unless_given (zones_text g.availability_zones) (find_key old Names.availability_zones)
    unfolding fixed_attributes
    zones_stored =
        stored Names.availability_zones
        ∙ with_old _ _ (find_key old Names.availability_zones) (
            zones_value (fixed_attributes json g policy) m (zones_text g.availability_zones)
              g.vpc_zone_identifier refl)

    vpc_stored :
        find_key attrs Names.vpc_zone_identifier
        ≡ unless_given g.vpc_zone_identifier (find_key old Names.vpc_zone_identifier)
    unfolding fixed_attributes
    vpc_stored =
        stored Names.vpc_zone_identifier
        ∙ with_old _ _ (find_key old Names.vpc_zone_identifier) (
            vpc_value (fixed_attributes json g policy) m (zones_text g.availability_zones)
              g.vpc_zone_identifier refl)

    pub mappings_stored :
        find_key attrs Names.block_device_mappings
        ≡ unless_given m (find_key old Names.block_device_mappings)
    unfolding fixed_attributes
    mappings_stored =
        stored Names.block_device_mappings
        ∙ with_old _ _ (find_key old Names.block_device_mappings) (
            mappings_value (fixed_attributes json g policy) m (zones_text g.availability_zones)
              g.vpc_zone_identifier refl)

    -- The attributes that were written are read as the group, with a state of its warm pool.
    pub group_from-stored :
        IsFresh g old
        → unmarshal_policy json.policy policy ≡ ok g.policy
        → unmarshal_list json.mappings (key_or_empty attrs Names.block_device_mappings)
          ≡ ok g.block_device_mappings
        → group_from json is_time g.name attrs ≡ ok (as_loaded g)
    unfolding group_from fixed_attributes
    group_from-stored fresh p b =
        rw
          (
            number Names.min_size g.min_size storable.min_size refl refl refl refl,
            number Names.max_size g.max_size storable.max_size refl refl refl refl,
            number Names.desired_capacity g.desired_capacity storable.desired_capacity refl refl
                refl refl,
            text Names.created_time g.created_time storable.created_time refl refl refl refl,
            storable.time,
            text Names.launch_template_id g.template_id storable.template_id refl refl refl refl,
            text Names.launch_template_name g.template_name storable.template_name refl refl refl
                refl,
            b,
            fixed Names.mixed_instances_policy policy refl refl refl refl,
            p,
            zones-read g.availability_zones attrs (find_key old Names.availability_zones)
                storable.zones fresh.zones zones_stored,
            number Names.default_cooldown g.default_cooldown storable.default_cooldown refl refl
                refl refl,
            optional_bool-found attrs Names.warm_pool_enabled (some g.warm_pool_enabled) (
                fixed Names.warm_pool_enabled (format_bool g.warm_pool_enabled) refl refl refl
                  refl),
            optional_int-found attrs Names.warm_pool_min_size (some g.warm_pool_min_size)
                storable.warm_pool_min_size
                (fixed Names.warm_pool_min_size (format_int 10 g.warm_pool_min_size) refl refl refl
                  refl),
            optional_int-found attrs Names.warm_pool_max_group_prepared_capacity
                g.warm_pool_max_prepared storable.warm_pool_max_prepared
                (fixed Names.warm_pool_max_group_prepared_capacity
                  (some_int g.warm_pool_max_prepared) refl refl refl refl),
            fixed Names.warm_pool_state g.warm_pool_state refl refl refl refl,
            storable.state,
            optional_bool-found attrs Names.warm_pool_reuse_on_scale_in g.warm_pool_reuse (
                fixed Names.warm_pool_reuse_on_scale_in (some_bool g.warm_pool_reuse) refl refl refl
                  refl),
            fixed Names.warm_pool_status g.warm_pool_status refl refl refl refl,
            storable.status,
            fixed Names.launch_template_version g.template_version refl refl refl refl,
            storable.template_version,
            fixed Names.image_id g.image_id refl refl refl refl,
            fixed Names.template_instance_kind g.instance_kind refl refl refl refl,
            fixed Names.user_data g.user_data refl refl refl refl,
            fixed Names.health_check_kind g.health_check_kind refl refl refl refl,
            storable.health_check_kind,
            vpc-read g.vpc_zone_identifier attrs (find_key old Names.vpc_zone_identifier) fresh.vpc
                vpc_stored,
          )
          refl
