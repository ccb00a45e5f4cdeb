-- ===== src/AutoScaling/Scaling/Keeps.antt =====
-- Moving instances between a group and its warm pool, in pkg/dc2/dispatcher_autoscaling.go, leaves the sizes
-- of groups in order.
use dc.Prelude.{String, refl, Bool, not, List, [], ◌∷◌, inl, inr, Bool-cases}
use dc.Prelude.Int.{ℤ, pos, leb_ℤ}
use dc.Executor.{Executor, Description, executor_instance_ids}
use dc.Executor.Keeps.{
  Keeps, bind-Keeps, then-Keeps, each-Keeps, pure-Keeps, wrap-Keeps, lift-Keeps, in_storage-Keeps,
  in_exe-Keeps,
}
use dc.Instances.Lifecycle.{Settings}
use dc.Instances.Lifecycle.Keeps.{start_instances-Keeps, stop_instances-Keeps}
use dc.AutoScaling.Names
use dc.AutoScaling.Stored.{attribute}
use dc.AutoScaling.InOrder.{InOrder, NoSizes, is_size, set-InOrder, unset-InOrder}
use dc.AutoScaling.Members.{described, described_as, missing}
use dc.AutoScaling.Members.Keeps.{Ordered, cleanup_missing-Keeps, warm_instance_ids-Keeps}
use dc.AutoScaling.Scaling.{
  false, true, is_running, is_stopped, runtime_ids, moves, promotion_keys, describe, start_some,
  stop_some, first_of, promote_described, promote_some, promote_warm_pool_instances, move_described,
  move_to_warm_pool, reconcile_warm_pool_instance_state,
}

promotion_keys-NoSizes : NoSizes promotion_keys
unfolding promotion_keys is_size
promotion_keys-NoSizes = (refl, (refl, (refl, (refl, (refl, tt)))))

in_warm_pool-NoSizes : NoSizes (attribute Names.warm_pool "true" ∷ [])
unfolding is_size
in_warm_pool-NoSizes = (refl, tt)

module _ {E : Type 0} (x : Executor E) (o : Settings) where
  describe-Keeps : (ids : List String) → Keeps (Ordered {E = E}) (describe x o ids)
  unfolding describe
  describe-Keeps ids =
      bind-Keeps (lift-Keeps (executor_instance_ids ids))
        λ rs. in_exe-Keeps InOrder (x.describe_instances rs)

  start_some-Keeps : (ids : List String) → Keeps (Ordered {E = E}) (start_some x o ids)
  unfolding start_some
  start_some-Keeps [] = pure-Keeps tt
  start_some-Keeps (id ∷ ids) =
      bind-Keeps (start_instances-Keeps x o InOrder (id ∷ ids)) λ changes. pure-Keeps tt

  stop_some-Keeps : (ids : List String) → Keeps (Ordered {E = E}) (stop_some x o ids)
  unfolding stop_some
  stop_some-Keeps [] = pure-Keeps tt
  stop_some-Keeps (id ∷ ids) =
      bind-Keeps (stop_instances-Keeps x o InOrder (id ∷ ids) false) λ changes. pure-Keeps tt

  promote_described-Keeps :
      (ids : List String) (ds : List Description)
      → Keeps (Ordered {E = E}) (promote_described x o ids ds)
  unfolding promote_described
  promote_described-Keeps ids ds = then-Keeps (cleanup_missing-Keeps x (missing ds ids)) (
      then-Keeps (start_some-Keeps (runtime_ids ds (described_as (λ d. not (is_running d)) ds ids)))
        (then-Keeps
          (each-Keeps (described ds ids) λ id.
            in_storage-Keeps (wrap-Keeps (unset-InOrder id promotion_keys promotion_keys-NoSizes)))
          (pure-Keeps (described ds ids))))

  promote_some-Keeps : (ids : List String) → Keeps (Ordered {E = E}) (promote_some x o ids)
  unfolding promote_some
  promote_some-Keeps [] = pure-Keeps []
  promote_some-Keeps (id ∷ ids) =
      bind-Keeps (describe-Keeps (id ∷ ids)) λ ds. promote_described-Keeps (id ∷ ids) ds

  pub promote_warm_pool_instances-Keeps :
      (group : String) (count : ℤ)
      → Keeps (Ordered {E = E}) (promote_warm_pool_instances x o group count)
  unfolding promote_warm_pool_instances
  promote_warm_pool_instances-Keeps group count = elim (Bool-cases (leb_ℤ count (pos 0))) [
    | inl b ↦ rw (b, promote_warm_pool_instances) (pure-Keeps [])
    | inr b ↦
        rw (b, promote_warm_pool_instances)
          (bind-Keeps (warm_instance_ids-Keeps x o true group)
            λ ids. promote_some-Keeps (first_of x o count ids))
  ]

  move_described-Keeps :
      (starts : Description → Bool) (state : String) (ids : List String) (ds : List Description)
      → Keeps (Ordered {E = E}) (move_described x o starts state ids ds)
  unfolding move_described
  move_described-Keeps starts state ids ds =
      bind-Keeps (lift-Keeps (moves starts state ds ids))
        λ m. then-Keeps (start_some-Keeps m.0) (stop_some-Keeps m.1)

  pub move_to_warm_pool-Keeps :
      (state : String) (ids : List String)
      → Keeps (Ordered {E = E}) (move_to_warm_pool x o state ids)
  unfolding move_to_warm_pool
  move_to_warm_pool-Keeps state [] = pure-Keeps tt
  move_to_warm_pool-Keeps state (id ∷ ids) = bind-Keeps (describe-Keeps (id ∷ ids)) λ ds.
      then-Keeps (move_described-Keeps (λ d. not (is_running d)) state (id ∷ ids) ds) (
        each-Keeps (id ∷ ids) λ i.
          in_storage-Keeps (
            wrap-Keeps
              (set-InOrder i (attribute Names.warm_pool "true" ∷ []) in_warm_pool-NoSizes)))

  pub reconcile_warm_pool_instance_state-Keeps :
      (state : String) (ids : List String)
      → Keeps (Ordered {E = E}) (reconcile_warm_pool_instance_state x o state ids)
  unfolding reconcile_warm_pool_instance_state
  reconcile_warm_pool_instance_state-Keeps state [] = pure-Keeps tt
  reconcile_warm_pool_instance_state-Keeps state (id ∷ ids) =
      bind-Keeps (describe-Keeps (id ∷ ids))
        λ ds. move_described-Keeps is_stopped state (id ∷ ids) ds
