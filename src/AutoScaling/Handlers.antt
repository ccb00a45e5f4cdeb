-- ===== src/AutoScaling/Handlers.antt =====
-- The handlers of pkg/dc2/dispatcher_autoscaling.go that change groups, and the loop that keeps all
-- groups at their sizes.
pub mod Changes
pub mod Sizes
use Prim.Native.String.{◌++◌ as ◌<>◌}
use dc.Prelude.{
  ltb, String, Bool, false, not, ◌&&◌, Option, none, some, List, [], ◌∷◌, ◌++◌, ◌==◌, if◌then◌else◌,
  length, contains,
}
use dc.Prelude.Int.{ℤ, pos, ltb_ℤ, ◌-ℤ◌, wrap64}
use dc.Api.{Result, ok, err, invalid_parameter_value}
use dc.Api
use dc.Api.Exec
use dc.Api.Exec.{Exec, reads, ◌>>=◌, ◌>>◌, fail_if}
use dc.Storage.{Storage, Attribute}
use dc.LaunchTemplate.Load.{Template, validation_error}
use dc.LaunchTemplate.Find.{Specification}
use dc.Executor.{Executor, World, in_storage, each}
use dc.Instances.Lifecycle.{Settings}
use dc.Instances.Describe.{Library}
use dc.AutoScaling.Names
use dc.AutoScaling.Groups.{
  Policy, Group, pool_stopped, validate_group_sizes, validate_desired_capacity,
}
use dc.AutoScaling.Stored.{attribute, load_group, save_group}
use dc.AutoScaling.WarmJobs.{cancel_warm_pool_delete_job}
use dc.AutoScaling.Template.{
  Catalog, normalize_optional_string, normalize_availability_zones, resolve_launch_template,
  resolve_instance_kind,
}
use dc.AutoScaling.Tags.{GroupTag}

-- api.CreateAutoScalingGroupRequest
pub record CreateGroup (R : Type 0) : Type 0 where
  pub name : String
  pub min_size : Option ℤ
  pub max_size : Option ℤ
  pub desired_capacity : Option ℤ
  pub template : Option Specification
  pub policy : Option (Policy R)
  pub vpc_zone_identifier : Option String
  pub availability_zones : List String
  pub tags : List GroupTag

-- api.UpdateAutoScalingGroupRequest
pub record UpdateGroup (R : Type 0) : Type 0 where
  pub name : String
  pub min_size : Option ℤ
  pub max_size : Option ℤ
  pub desired_capacity : Option ℤ
  pub template : Option Specification
  pub policy : Option (Policy R)
  pub vpc_zone_identifier : Option String
  pub availability_zones : Option (List String)

-- api.DetachInstancesRequest
pub record DetachInstances : Type 0 where
  pub group : String
  pub instance_ids : List String
  pub decrement : Bool

abbrev given {ℓ} : {A : Type ℓ} → Option A → A → A
given none d = d
given (some a) d = a

abbrev required {ℓ} : {A : Type ℓ} → Option A → Result A
required none = err validation_error
required (some a) = ok a

abbrev max_ℤ : ℤ → ℤ → ℤ
max_ℤ a b = if ltb_ℤ a b then b else a

abbrev min_ℤ : ℤ → ℤ → ℤ
min_ℤ a b = if ltb_ℤ b a then b else a

-- The sizes after dispatchUpdateAutoScalingGroup, or its error.
unfoldable pub updated_sizes : {R : Type 0} → UpdateGroup R → Group R → Result (Group R)
updated_sizes r g =
    let min_size = given r.min_size g.min_size in
    let max_size = given r.max_size g.max_size in
    let desired = given r.desired_capacity (min_ℤ (max_ℤ g.desired_capacity min_size) max_size) in
    Api.◌>>◌ (validate_group_sizes min_size max_size) (
      Api.◌>>◌ (validate_desired_capacity desired min_size max_size)
        (ok (record g { min_size = min_size; max_size = max_size; desired_capacity = desired })))

-- The ids without those seen before; each has to be in the group.
ids_to_detach : List String → List String → List String → Result (List String)
ids_to_detach current seen [] = ok []
ids_to_detach current seen (id ∷ ids) =
    let again = ids_to_detach current seen ids in
    let fresh = ids_to_detach current (id ∷ seen) ids in
    if contains seen id
    then again
    else if not (contains current id)
    then err validation_error
    else Api.◌>>=◌ fresh (λ rest. ok (id ∷ rest))

-- What dispatchDetachInstances leaves as the desired capacity.
unfoldable pub capacity_after : {R : Type 0} → DetachInstances → Group R → List String → Result ℤ
capacity_after r g ids =
    let less = wrap64 (g.desired_capacity -ℤ pos (length ids)) in
    if r.decrement
    then Api.◌>>◌ (validate_desired_capacity less g.min_size g.max_size) (ok less)
    else ok g.desired_capacity

detach_keys : List Attribute
detach_keys =
    attribute Names.name ""
    ∷ attribute Names.instance_kind ""
    ∷ attribute Names.synchronous_provisioning ""
    ∷ []

module _ {R : Type 0} (c : Catalog R) (lib : Library) {E : Type 0} (x : Executor E)
    (o : Settings) where
  pub load : String → Exec (World E) (Group R)
  load name = reads (λ (w : World E). load_group c.group_json o.is_time name w.storage)

  pub save : Group R → Exec (World E) (Unit {0})
  save g = in_storage (save_group c.group_json g)

  cancel_deletion : String → Exec (World E) (Unit {0})
  cancel_deletion name w = (record w { warm = cancel_warm_pool_delete_job name w.warm }, ok tt)

  resolve :
      Option Specification → Option (Policy R) → Storage → Result (Template R × Option (Policy R))
  resolve template policy s = resolve_launch_template c o.is_time template policy s

  -- The instance type, which has to be there, as the image has to be.
  kind_of : Template R → Option (Policy R) → Result String
  kind_of t p = Api.◌>>=◌ (resolve_instance_kind c t p) λ kind.
      if t.version_data.image_id == ""
      then err validation_error
      else if kind == ""
      then err validation_error
      else ok kind

  pub with_template : Template R → Option (Policy R) → String → Group R → Group R
  with_template t p kind g = record g {
    template_id = t.id;
    template_name = t.name;
    template_version = t.version;
    image_id = t.version_data.image_id;
    instance_kind = kind;
    user_data = t.version_data.user_data;
    block_device_mappings = t.version_data.block_device_mappings;
    policy = p;
  }

  blank : String → String → Group R
  blank name now = record {
    name = name;
    min_size = pos 0;
    max_size = pos 0;
    desired_capacity = pos 0;
    created_time = now;
    template_id = "";
    template_name = "";
    template_version = "";
    image_id = "";
    instance_kind = "";
    user_data = "";
    block_device_mappings = [];
    policy = none;
    availability_zones = [];
    vpc_zone_identifier = none;
    default_cooldown = pos 300;
    health_check_kind = "EC2";
    warm_pool_enabled = false;
    warm_pool_min_size = pos 0;
    warm_pool_max_prepared = none;
    warm_pool_state = pool_stopped;
    warm_pool_status = "";
    warm_pool_reuse = none;
  }

  -- The checks of dispatchCreateAutoScalingGroup from the sizes on.
  filled_group : CreateGroup R → String → ℤ → ℤ → Template R × Option (Policy R) → Result (Group R)
  unfolding kind_of with_template blank
  filled_group r now min_size max_size found =
      let desired = given r.desired_capacity min_size in
      Api.◌>>◌ (validate_group_sizes min_size max_size) (
        Api.◌>>◌ (validate_desired_capacity desired min_size max_size) (
          Api.◌>>=◌ (kind_of found.0 found.1) λ kind.
            Api.◌>>=◌ (normalize_availability_zones r.availability_zones) λ zones.
              ok (record (with_template found.0 found.1 kind (blank r.name now)) {
                min_size = min_size;
                max_size = max_size;
                desired_capacity = desired;
                availability_zones = zones;
                vpc_zone_identifier = normalize_optional_string r.vpc_zone_identifier;
              })))

  -- The group of dispatchCreateAutoScalingGroup, or the error of its checks.
  unfoldable pub prepare_group : CreateGroup R → String → Storage → Result (Group R)
  unfolding resolve filled_group
  prepare_group r now s =
      Api.◌>>◌ (Api.fail_if (ltb 1000 (length r.tags)) (invalid_parameter_value "Tags")) (
        Api.◌>>=◌ (required r.min_size) λ min_size. Api.◌>>=◌ (required r.max_size) λ max_size.
          Api.◌>>=◌ (resolve r.template r.policy s) (filled_group r now min_size max_size))
