-- ===== src/AutoScaling/Resize.antt =====
-- pkg/dc2/dispatcher_autoscaling.go: scaleAutoScalingGroupTo and reconcileWarmPool, which bring a group
-- and its warm pool to their sizes.
pub mod Fit
pub mod Keeps
use Prim.Native.String.{◌++◌ as ◌<>◌}
use dc.Prelude.{String, Bool, true, false, not, ◌&&◌, none, some, List, ◌==◌, if◌then◌else◌}
use dc.Prelude.Int.{ℤ, pos, leb_ℤ, ltb_ℤ, ◌-ℤ◌, wrap64}
use dc.Api.Exec.{Exec, pure, raise, lift, ◌>>=◌, ◌>>◌}
use dc.LaunchTemplate.Load.{validation_error}
use dc.Executor.{Executor, World, in_storage, executor_instance_ids}
use dc.Instances.Lifecycle.{Settings, stop_instances}
use dc.Instances.Describe.{Library}
use dc.AutoScaling.Groups.{Group, GroupJson, pool_pending_delete, validate_desired_capacity}
use dc.AutoScaling.Stored.{save_group}
use dc.AutoScaling.Members.{sorted, terminate_members, warm_instance_ids, managed_instance_ids}
use dc.AutoScaling.Create.{InstanceOptions, create_instances, instance_subnet_id}
use dc.AutoScaling.Scaling.{
  count_of, slice_to, warm_pool_target_capacity, clear_warm_pool_configuration, pool_runs,
  promote_warm_pool_instances, move_to_warm_pool,
}

module _ {R : Type 0} (json : GroupJson R) (lib : Library) {E : Type 0} (x : Executor E)
    (o : Settings) where
  options_of : Group R → Bool → InstanceOptions
  options_of g warm = record {
    availability_zone = o.region <> "a";
    subnet_id = instance_subnet_id g.vpc_zone_identifier;
    warm_pool = warm;
    synchronous_provisioning = false;
  }

  -- scaleOutAutoScalingGroup
  scale_out : Group R → ℤ → Exec (World E) (Unit {0})
  unfolding options_of
  scale_out g count = create_instances lib x o g count (options_of g false) >>= λ ids. pure tt

  settle_created : String → List String → Exec (World E) (Unit {0})
  settle_created state ids = elim (pool_runs state) [
    | none ↦ raise validation_error
    | some b ↦ if b then pure tt else (do
      rs ← lift (executor_instance_ids ids)
      changes ← stop_instances x o rs false
      pure tt)
  ]

  -- scaleOutWarmPool
  scale_out_warm_pool : Group R → ℤ → Exec (World E) (Unit {0})
  unfolding options_of settle_created
  scale_out_warm_pool g count =
      if leb_ℤ count (pos 0)
      then pure tt
      else create_instances lib x o g count (options_of g true) >>= settle_created g.warm_pool_state

  fit_warm_pool : Group R → List String → Exec (World E) (Unit {0})
  unfolding scale_out_warm_pool
  fit_warm_pool g ids =
      let target = warm_pool_target_capacity g in
      if ltb_ℤ (count_of ids) target
      then scale_out_warm_pool g (wrap64 (target -ℤ count_of ids))
      else if ltb_ℤ target (count_of ids)
      then lift (slice_to (wrap64 (count_of ids -ℤ target)) (sorted ids)) >>= terminate_members x o
      else pure tt

  -- reconcileWarmPool
  unfoldable pub reconcile_warm_pool : Group R → Exec (World E) (Unit {0})
  unfolding fit_warm_pool
  reconcile_warm_pool g =
      if not g.warm_pool_enabled
      then pure tt
      else warm_instance_ids x o true g.name >>= λ ids.
          if g.warm_pool_status == pool_pending_delete
          then terminate_members x o ids
            >> in_storage (save_group json (clear_warm_pool_configuration g))
          else fit_warm_pool g ids

  pub grow : Group R → ℤ → Exec (World E) (Unit {0})
  unfolding scale_out
  grow g count = do
    promoted ← promote_warm_pool_instances x o g.name count
    let left = wrap64 (count -ℤ count_of promoted)
    if leb_ℤ left (pos 0) && leb_ℤ (pos 0) left then pure tt else scale_out g left

  abbrev pub reuses : Group R → Bool
  reuses g = elim g.warm_pool_reuse [ none ↦ false | some b ↦ g.warm_pool_enabled && b ]

  shrink : Group R → ℤ → List String → Exec (World E) (Unit {0})
  shrink g redundant ids = lift (slice_to redundant (sorted ids)) >>= λ removed.
      if reuses g
      then move_to_warm_pool x o g.warm_pool_state removed
      else terminate_members x o removed

  -- The part of scaleAutoScalingGroupTo that changes the instances of the group.
  pub fit_group : Group R → ℤ → List String → Exec (World E) (Unit {0})
  unfolding grow shrink
  fit_group g desired ids =
      if ltb_ℤ (count_of ids) desired
      then grow g (wrap64 (desired -ℤ count_of ids))
      else if ltb_ℤ desired (count_of ids)
      then shrink g (wrap64 (count_of ids -ℤ desired)) ids
      else pure tt

  -- scaleAutoScalingGroupTo
  unfoldable pub scale_group_to : Group R → ℤ → Exec (World E) (Unit {0})
  unfolding fit_group
  scale_group_to g desired = do
    lift (validate_desired_capacity desired g.min_size g.max_size)
    ids ← managed_instance_ids x o g.name
    fit_group g desired ids
    in_storage (save_group json (record g { desired_capacity = desired }))
    reconcile_warm_pool (record g { desired_capacity = desired })
