-- ===== src/AutoScaling/Resize/Keeps.antt =====
-- scaleAutoScalingGroupTo and reconcileWarmPool of pkg/dc2/dispatcher_autoscaling.go leave the sizes of groups
-- in order.
use dc.Prelude.{String, ◌&&◌, List, ◌==◌, inl, inr, Bool-cases, Option-cases}
use dc.Prelude.Int.{ℤ, pos, leb_ℤ, ltb_ℤ, ◌-ℤ◌, wrap64}
use dc.LaunchTemplate.Load.{validation_error}
use dc.Executor.{in_storage, Executor, executor_instance_ids}
use dc.Executor.Keeps.{
  Keeps, bind-Keeps, then-Keeps, pure-Keeps, raise-Keeps, lift-Keeps, in_storage-Keeps,
  lift_then-Keeps,
}
use dc.Instances.Lifecycle.{Settings}
use dc.Instances.Lifecycle.Keeps.{stop_instances-Keeps}
use dc.Instances.Describe.{Library}
use dc.AutoScaling.Groups.{Group, GroupJson, pool_pending_delete, validate_desired_capacity}
use dc.AutoScaling.Stored.Sizes.{save_group-InOrder}
use dc.Prelude.{if◌then◌else◌}
use dc.Api.Exec.{◌>>◌}
use dc.AutoScaling.InOrder.{InOrder}
use dc.AutoScaling.Stored.{save_group}
use dc.AutoScaling.Members.{sorted, terminate_members}
use dc.AutoScaling.Members.Keeps.{
  Ordered, terminate_members-Keeps, warm_instance_ids-Keeps, managed_instance_ids-Keeps,
}
use dc.AutoScaling.Create.Keeps.{create_instances-Keeps}
use dc.AutoScaling.Scaling.{
  count_of, slice_to, warm_pool_target_capacity, clear_warm_pool_configuration, pool_runs,
}
use dc.AutoScaling.Scaling.Keeps.{promote_warm_pool_instances-Keeps, move_to_warm_pool-Keeps}
use dc.AutoScaling.Handlers.Sizes.{IsSized, recapacitated}
use dc.AutoScaling.Handlers.Sizes.Evolution.{clear-IsSized}
use dc.AutoScaling.Resize.{
  false, true, options_of, scale_out, settle_created, scale_out_warm_pool, fit_warm_pool,
  reconcile_warm_pool, grow, reuses, shrink, fit_group, scale_group_to,
}

module _ {R : Type 0} (json : GroupJson R) (lib : Library) {E : Type 0} (x : Executor E)
    (o : Settings) where
  scale_out-Keeps :
      (g : Group R) (count : ℤ) → Keeps (Ordered {E = E}) (scale_out json lib x o g count)
  unfolding scale_out
  scale_out-Keeps g count =
      bind-Keeps (create_instances-Keeps lib x o g (options_of json lib x o g false) count)
        λ ids. pure-Keeps tt

  settle_created-Keeps :
      (state : String) (ids : List String)
      → Keeps (Ordered {E = E}) (settle_created json lib x o state ids)
  unfolding settle_created
  settle_created-Keeps state ids = elim (Option-cases (pool_runs state)) [
    | inl e ↦ rw (e, settle_created) (raise-Keeps validation_error)
    | inr (b, e) ↦ elim (Bool-cases b) [
      | inl t ↦ rw (e, t, settle_created) (pure-Keeps tt)
      | inr t ↦
          rw (e, t, settle_created)
            (bind-Keeps (lift-Keeps (executor_instance_ids ids))
              λ rs. bind-Keeps (stop_instances-Keeps x o InOrder rs false) λ changes. pure-Keeps tt)
    ]
  ]

  scale_out_warm_pool-Keeps :
      (g : Group R) (count : ℤ) → Keeps (Ordered {E = E}) (scale_out_warm_pool json lib x o g count)
  unfolding scale_out_warm_pool
  scale_out_warm_pool-Keeps g count = elim (Bool-cases (leb_ℤ count (pos 0))) [
    | inl b ↦ rw (b, scale_out_warm_pool) (pure-Keeps tt)
    | inr b ↦
        rw (b, scale_out_warm_pool)
          (bind-Keeps (create_instances-Keeps lib x o g (options_of json lib x o g true) count)
            λ ids. settle_created-Keeps g.warm_pool_state ids)
  ]

  fit_warm_pool-Keeps :
      (g : Group R) (ids : List String) → Keeps (Ordered {E = E}) (fit_warm_pool json lib x o g ids)
  unfolding fit_warm_pool
  fit_warm_pool-Keeps g ids =
      let target = warm_pool_target_capacity g in
      elim (Bool-cases (ltb_ℤ (count_of ids) target)) [
        | inl b ↦
            rw (b, fit_warm_pool) (scale_out_warm_pool-Keeps g (wrap64 (target -ℤ count_of ids)))
        | inr b ↦ elim (Bool-cases (ltb_ℤ target (count_of ids))) [
          | inl c ↦
              rw (b, c, fit_warm_pool)
                (bind-Keeps (lift-Keeps (slice_to (wrap64 (count_of ids -ℤ target)) (sorted ids)))
                  λ removed. terminate_members-Keeps x o removed)
          | inr c ↦ rw (b, c, fit_warm_pool) (pure-Keeps tt)
        ]
      ]

  after_listing-Keeps :
      (g : Group R) (ids : List String)
      → IsSized g
      → Keeps {A = Unit {0}} (Ordered {E = E}) (
          if g.warm_pool_status == pool_pending_delete
          then terminate_members x o ids
            >> in_storage (save_group json (clear_warm_pool_configuration g))
          else fit_warm_pool json lib x o g ids)
  after_listing-Keeps g ids sized = elim (Bool-cases (g.warm_pool_status == pool_pending_delete)) [
    | inl b ↦ rw b (
        then-Keeps (terminate_members-Keeps x o ids) (
          in_storage-Keeps
            (save_group-InOrder json (clear_warm_pool_configuration g) (clear-IsSized g sized))))
    | inr b ↦ rw b (fit_warm_pool-Keeps g ids)
  ]

  pub reconcile_warm_pool-Keeps :
      (g : Group R) → IsSized g → Keeps (Ordered {E = E}) (reconcile_warm_pool json lib x o g)
  unfolding reconcile_warm_pool clear_warm_pool_configuration warm_pool_target_capacity
      dc.AutoScaling.Create.create_instances
  reconcile_warm_pool-Keeps g sized = elim (Bool-cases g.warm_pool_enabled) [
    | inr n ↦ rw (n, reconcile_warm_pool) (pure-Keeps tt)
    | inl y ↦
        rw (y, reconcile_warm_pool)
          (bind-Keeps (warm_instance_ids-Keeps x o true g.name)
            λ ids. after_listing-Keeps g ids sized)
  ]

  grow-Keeps : (g : Group R) (count : ℤ) → Keeps (Ordered {E = E}) (grow json lib x o g count)
  unfolding grow
  grow-Keeps g count = bind-Keeps (promote_warm_pool_instances-Keeps x o g.name count) λ promoted.
      let left = wrap64 (count -ℤ count_of promoted) in
      elim (Bool-cases (leb_ℤ left (pos 0) && leb_ℤ (pos 0) left)) [
        | inl b ↦ rw b (pure-Keeps tt)
        | inr b ↦ rw b (scale_out-Keeps g left)
      ]

  shrink-Keeps :
      (g : Group R) (redundant : ℤ) (ids : List String)
      → Keeps (Ordered {E = E}) (shrink json lib x o g redundant ids)
  unfolding shrink
  shrink-Keeps g redundant ids = elim (Bool-cases (reuses json lib x o g)) [
    | inl b ↦
        rw (b, shrink)
          (bind-Keeps (lift-Keeps (slice_to redundant (sorted ids)))
            λ removed. move_to_warm_pool-Keeps x o g.warm_pool_state removed)
    | inr b ↦
        rw (b, shrink)
          (bind-Keeps (lift-Keeps (slice_to redundant (sorted ids)))
            λ removed. terminate_members-Keeps x o removed)
  ]

  fit_group-Keeps :
      (g : Group R) (desired : ℤ) (ids : List String)
      → Keeps (Ordered {E = E}) (fit_group json lib x o g desired ids)
  unfolding fit_group
  fit_group-Keeps g desired ids = elim (Bool-cases (ltb_ℤ (count_of ids) desired)) [
    | inl b ↦ rw (b, fit_group) (grow-Keeps g (wrap64 (desired -ℤ count_of ids)))
    | inr b ↦ elim (Bool-cases (ltb_ℤ desired (count_of ids))) [
      | inl c ↦ rw (b, c, fit_group) (shrink-Keeps g (wrap64 (count_of ids -ℤ desired)) ids)
      | inr c ↦ rw (b, c, fit_group) (pure-Keeps tt)
    ]
  ]

  pub scale_group_to-Keeps :
      (g : Group R) (desired : ℤ)
      → IsSized g
      → Keeps (Ordered {E = E}) (scale_group_to json lib x o g desired)
  unfolding scale_group_to
  scale_group_to-Keeps g desired sized =
      lift_then-Keeps (validate_desired_capacity desired g.min_size g.max_size) λ u h.
        let new = recapacitated g desired sized h in
        bind-Keeps (managed_instance_ids-Keeps x o g.name) λ ids.
          then-Keeps (fit_group-Keeps g desired ids) (
            then-Keeps
              (in_storage-Keeps
                (save_group-InOrder json (record g { desired_capacity = desired }) new))
              (reconcile_warm_pool-Keeps (record g { desired_capacity = desired }) new))
