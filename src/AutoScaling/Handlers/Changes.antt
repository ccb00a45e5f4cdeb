-- ===== src/AutoScaling/Handlers/Changes.antt =====
-- The handlers of pkg/dc2/dispatcher_autoscaling.go with what they do to the state.
pub mod Keeps
pub mod Updates
use dc.Prelude.{
  String, Bool, true, false, not, Option, none, some, List, [], ◌∷◌, ◌++◌, if◌then◌else◌, is_empty,
  ◌&&◌,
}
use dc.Prelude.Int.{ℤ}
use dc.Api.{Error, Result, ok, err, is_not_found, is_panic, with_code, wrapped}
use dc.Api
use dc.Api.Exec
use dc.Api.Exec.{Exec, pure, raise, gets, reads, lift, ◌>>=◌, ◌>>◌, rescue, fail_if}
use dc.Storage.{
  Storage, Resource, auto_scaling_group_type, register_resource, remove_resource,
  registered_resources, set_resource_attributes, remove_resource_attributes,
}
use dc.Dispatcher.{find_resource}
use dc.LaunchTemplate.Load.{validation_error}
use dc.Executor.{Executor, World, in_storage, each}
use dc.Instances.Lifecycle.{Settings}
use dc.Instances.Describe.{Library}
use dc.AutoScaling.Groups.{Group, validate_desired_capacity}
use dc.AutoScaling.Members.{terminate_members, group_instance_ids, warm_instance_ids}
use dc.AutoScaling.Resize.{scale_group_to}
use dc.AutoScaling.Template.{
  Catalog, normalize_optional_string, normalize_availability_zones, launch_template_changed,
}
use dc.AutoScaling.Tags.{GroupTag, tags_of_group}
use dc.AutoScaling.Handlers.{
  CreateGroup, UpdateGroup, DetachInstances, updated_sizes, ids_to_detach, capacity_after,
  detach_keys, load, save, cancel_deletion, resolve, kind_of, with_template, prepare_group,
}

abbrev already_exists : Error → Error
already_exists (Error.duplicated_resource id) = with_code "AlreadyExists"
already_exists e = wrapped e

abbrev refuse_duplicate : Storage × Result (Unit {0}) → Storage × Result (Unit {0})
refuse_duplicate (s, ok u) = (s, ok tt)
refuse_duplicate (s, err e) = (s, err (already_exists e))

tag_group : String → List GroupTag → Exec Storage (Unit {0})
tag_group name [] = pure tt
tag_group name (t ∷ ts) =
    lift (tags_of_group 0 name (t ∷ ts)) >>= λ attrs. Exec.wrap (set_resource_attributes name attrs)

abbrev forget_errors : {S : Type 0} → Exec S (Unit {0}) → Exec S (Unit {0})
forget_errors m = rescue m (λ e. pure tt)

module _ {R : Type 0} (c : Catalog R) (lib : Library) {E : Type 0} (x : Executor E)
    (o : Settings) where
  pub scale : Group R → ℤ → Exec (World E) (Unit {0})
  scale g desired = scale_group_to c.group_json lib x o g desired

  -- What dispatchCreateAutoScalingGroup does once the resource is registered.
  fill_group : Group R → List GroupTag → Exec (World E) (Unit {0})
  unfolding scale save tag_group
  fill_group g tags = do
    save c lib x o g
    in_storage (tag_group g.name tags)
    scale g g.desired_capacity

  -- dispatchCreateAutoScalingGroup
  unfoldable pub dispatch_create_auto_scaling_group : CreateGroup R → Exec (World E) (Unit {0})
  unfolding fill_group prepare_group
  dispatch_create_auto_scaling_group r = do
    g ← reads (λ (w : World E). prepare_group c lib x o r (x.now w.exe) w.storage)
    in_storage (λ s.
        refuse_duplicate
          (register_resource (record { type = auto_scaling_group_type; id = r.name }) s))
    rescue (fill_group g r.tags)
        (λ e. forget_errors (in_storage (remove_resource r.name)) >> raise e)

  -- The launch template of the update, with whether it is another one.
  retemplate : UpdateGroup R → Group R → Exec (World E) (Group R × Bool)
  unfolding resolve kind_of with_template
  retemplate r g w =
      let change : Result (Group R × Bool) =
        Api.◌>>=◌ (resolve c lib x o r.template r.policy w.storage) λ found.
          Api.◌>>=◌ (kind_of c lib x o found.0 found.1) λ kind. ok (
            with_template c lib x o found.0 found.1 kind g,
            launch_template_changed g found.0 kind,
          ) in
      elim r.template [
        | some spec ↦ (w, change)
        | none ↦ elim r.policy [ some p ↦ (w, change) | none ↦ (w, ok (g, false)) ]
      ]

  abbrev with_vpc_zones : Option String → Group R → Group R
  with_vpc_zones none g = g
  with_vpc_zones (some v) g = record g { vpc_zone_identifier = normalize_optional_string (some v) }

  abbrev with_zones : Option (List String) → Group R → Result (Group R)
  with_zones none g = ok g
  with_zones (some zs) g =
      Api.◌>>=◌ (normalize_availability_zones zs)
        λ zones. ok (record g { availability_zones = zones })

  -- recycleWarmPoolInstancesForLaunchTemplateUpdate
  recycle_warm_pool : Group R → Exec (World E) (Unit {0})
  recycle_warm_pool g =
      if g.warm_pool_enabled
      then warm_instance_ids x o true g.name >>= terminate_members x o
      else pure tt

  -- dispatchUpdateAutoScalingGroup
  unfoldable pub dispatch_update_auto_scaling_group : UpdateGroup R → Exec (World E) (Unit {0})
  unfolding load save retemplate recycle_warm_pool scale
  dispatch_update_auto_scaling_group r = do
    old ← load c lib x o r.name
    sized ← lift (updated_sizes r old)
    change ← retemplate r sized
    g ← lift (with_zones r.availability_zones (with_vpc_zones r.vpc_zone_identifier change.0))
    save c lib x o g
    if change.1 then recycle_warm_pool g else pure tt
    scale g g.desired_capacity

  scale_checked : ℤ → Group R → Exec (World E) (Unit {0})
  unfolding scale
  scale_checked desired g =
      lift (validate_desired_capacity desired g.min_size g.max_size) >> scale g desired

  -- dispatchSetDesiredCapacity
  unfoldable pub dispatch_set_desired_capacity : String → Option ℤ → Exec (World E) (Unit {0})
  unfolding load scale_checked
  dispatch_set_desired_capacity name none = raise validation_error
  dispatch_set_desired_capacity name (some desired) = load c lib x o name >>= scale_checked desired

  detach : String → Exec (World E) (Unit {0})
  unfolding detach_keys
  detach id = in_storage (Exec.wrap (remove_resource_attributes id detach_keys))

  -- dispatchDetachInstances
  unfoldable pub dispatch_detach_instances : DetachInstances → Exec (World E) (Unit {0})
  unfolding load save ids_to_detach capacity_after detach
  dispatch_detach_instances r = do
    g ← load c lib x o r.group
    current ← group_instance_ids x o true r.group
    ids ← lift (ids_to_detach current [] r.instance_ids)
    desired ← lift (capacity_after r g ids)
    each detach ids
    save c lib x o (record g { desired_capacity = desired })

  abbrev found_group : String → Storage → Result Resource
  found_group name s = elim (find_resource s auto_scaling_group_type name) [
    | err e ↦ err (if is_not_found e then validation_error else e)
    | ok r ↦ ok r
  ]

  -- dispatchDeleteAutoScalingGroup
  unfoldable pub dispatch_delete_auto_scaling_group : String → Bool → Exec (World E) (Unit {0})
  unfolding cancel_deletion
  dispatch_delete_auto_scaling_group name force = do
    found ← reads (λ (w : World E). found_group name w.storage)
    cancel_deletion c lib x o name
    ids ← group_instance_ids x o true name
    warm ← warm_instance_ids x o true name
    fail_if (not (is_empty (ids ++ warm)) && not force) (with_code "ResourceInUse")
    terminate_members x o (ids ++ warm)
    in_storage (Exec.wrap (remove_resource name))

  reconcile : Resource → Exec (World E) (Unit {0})
  unfolding load scale
  reconcile r = load c lib x o r.id >>= λ g. scale g g.desired_capacity

  -- reconcileAllAutoScalingGroups
  unfoldable pub reconcile_all_groups : Exec (World E) (Unit {0})
  unfolding reconcile
  reconcile_all_groups w = each reconcile (registered_resources w.storage auto_scaling_group_type) w
