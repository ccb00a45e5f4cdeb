-- ===== src/AutoScaling/Scaling.antt =====
-- pkg/dc2/dispatcher_autoscaling.go: how many instances a group and its warm pool are to have,
-- and how instances go from one to the other.
pub mod Capacity
pub mod Keeps
use Prim.Native.String.{◌++◌ as ◌<>◌}
use dc.Prelude.{
  leb, String, Bool, true, false, not, ◌&&◌, ◌||◌, Option, none, some, List, [], ◌∷◌, ◌++◌, ◌==◌,
  if◌then◌else◌, length, take,
}
use dc.Prelude.Int.{ℤ, pos, negsuc, leb_ℤ, ltb_ℤ, ◌-ℤ◌, wrap64}
use dc.Api.{Error, Result, ok, err}
use dc.Api
use dc.Api.Exec
use dc.Api.Exec.{Exec, pure, lift, ◌>>=◌, ◌>>◌}
use dc.Storage.{Attribute, set_resource_attributes, remove_resource_attributes}
use dc.Dispatcher.Names as InstanceNames
use dc.LaunchTemplate.Load.{validation_error}
use dc.Executor.{
  Executor, World, Description, in_storage, in_exe, executor_instance_ids, each, running, stopped,
}
use dc.Instances.Lifecycle.{Settings, description_of, start_instances, stop_instances}
use dc.AutoScaling.Names
use dc.AutoScaling.Groups.{Group, pool_running, pool_stopped, pool_hibernated}
use dc.AutoScaling.Stored.{attribute}
use dc.AutoScaling.Members.{described, missing, described_as, cleanup_missing, warm_instance_ids}

abbrev pub count_of : List String → ℤ
count_of ids = pos (length ids)

-- `ids[:n]`, which panics out of range
unfoldable pub slice_to : ℤ → List String → Result (List String)
slice_to (negsuc n) ids = err Error.panics
slice_to (pos n) ids = if leb n (length ids) then ok (take n ids) else err Error.panics

abbrev pub max_ℤ : ℤ → ℤ → ℤ
max_ℤ a b = if ltb_ℤ a b then b else a

abbrev pub given_or : Option ℤ → ℤ → ℤ
given_or none d = d
given_or (some i) d = i

-- autoScalingWarmPoolTargetCapacity
unfoldable pub warm_pool_target_capacity : {R : Type 0} → Group R → ℤ
warm_pool_target_capacity g =
    let prepared = given_or g.warm_pool_max_prepared g.max_size in
    max_ℤ (max_ℤ (pos 0) (wrap64 (prepared -ℤ g.desired_capacity))) g.warm_pool_min_size

-- clearWarmPoolConfiguration
unfoldable pub clear_warm_pool_configuration : {R : Type 0} → Group R → Group R
clear_warm_pool_configuration g = record g {
  warm_pool_enabled = false;
  warm_pool_min_size = pos 0;
  warm_pool_max_prepared = none;
  warm_pool_state = "";
  warm_pool_status = "";
  warm_pool_reuse = none;
}

-- What a state of the warm pool asks for: `some true` is to run, `some false` to stand still.
unfoldable pub pool_runs : String → Option Bool
pool_runs state =
    if state == pool_running
    then some true
    else if state == "" || state == pool_stopped || state == pool_hibernated
    then some false
    else none

abbrev is_running : Description → Bool
is_running d = d.state == running

abbrev is_stopped : Description → Bool
is_stopped d = d.state == stopped

abbrev runtime_ids : List Description → List String → List String
runtime_ids ds [] = []
runtime_ids ds (id ∷ ids) =
    let rest = runtime_ids ds ids in
    elim (description_of id ds) [ none ↦ rest | some d ↦ d.id ∷ rest ]

-- The instances to start and those to stop; an unknown state fails at the first that is described.
moves :
    (Description → Bool)
    → String
    → List Description
    → List String
    → Result (List String × List String)
unfolding described
moves starts state ds ids = elim (pool_runs state) [
  | some b ↦
      if b
      then ok (runtime_ids ds (described_as starts ds ids), [])
      else ok ([], runtime_ids ds (described_as is_running ds ids))
  | none ↦ elim (described ds ids) [ [] ↦ ok ([], []) | id ∷ more ↦ err validation_error ]
]

abbrev warm_pool_key : Attribute
warm_pool_key = attribute Names.warm_pool ""

promotion_keys : List Attribute
promotion_keys =
    warm_pool_key
    ∷ attribute InstanceNames.transition_reason ""
    ∷ attribute InstanceNames.reason_code ""
    ∷ attribute InstanceNames.reason_message ""
    ∷ attribute InstanceNames.terminated_at ""
    ∷ []

module _ {E : Type 0} (x : Executor E) (o : Settings) where
  describe : List String → Exec (World E) (List Description)
  describe ids = lift (executor_instance_ids ids) >>= λ rs. in_exe (x.describe_instances rs)

  start_some : List String → Exec (World E) (Unit {0})
  start_some [] = pure tt
  start_some (id ∷ ids) = start_instances x o (id ∷ ids) >>= λ changes. pure tt

  stop_some : List String → Exec (World E) (Unit {0})
  stop_some [] = pure tt
  stop_some (id ∷ ids) = stop_instances x o (id ∷ ids) false >>= λ changes. pure tt

  abbrev first_of : ℤ → List String → List String
  first_of (negsuc n) ids = ids
  first_of (pos n) ids = take n ids

  promote_described : List String → List Description → Exec (World E) (List String)
  unfolding start_some promotion_keys
  promote_described ids ds = do
    cleanup_missing x (missing ds ids)
    start_some (runtime_ids ds (described_as (λ d. not (is_running d)) ds ids))
    each (λ id. in_storage (Exec.wrap (remove_resource_attributes id promotion_keys)))
        (described ds ids)
    pure (described ds ids)

  promote_some : List String → Exec (World E) (List String)
  unfolding promote_described describe
  promote_some [] = pure []
  promote_some (id ∷ ids) = describe (id ∷ ids) >>= promote_described (id ∷ ids)

  -- promoteWarmPoolInstances
  unfoldable pub promote_warm_pool_instances : String → ℤ → Exec (World E) (List String)
  unfolding promote_some
  promote_warm_pool_instances group count =
      if leb_ℤ count (pos 0)
      then pure []
      else (do ids ← warm_instance_ids x o true group; promote_some (first_of count ids))

  -- What moveAutoScalingInstancesToWarmPool and reconcileWarmPoolInstanceState do with descriptions.
  move_described :
      (Description → Bool) → String → List String → List Description → Exec (World E) (Unit {0})
  unfolding moves start_some stop_some
  move_described starts state ids ds = do
    m ← lift (moves starts state ds ids)
    start_some m.0
    stop_some m.1

  -- moveAutoScalingInstancesToWarmPool
  unfoldable pub move_to_warm_pool : String → List String → Exec (World E) (Unit {0})
  unfolding describe move_described
  move_to_warm_pool state [] = pure tt
  move_to_warm_pool state (id ∷ ids) = do
    ds ← describe (id ∷ ids)
    move_described (λ d. not (is_running d)) state (id ∷ ids) ds
    each
        (λ i.
          in_storage
            (Exec.wrap (set_resource_attributes i (attribute Names.warm_pool "true" ∷ []))))
        (id ∷ ids)

  -- reconcileWarmPoolInstanceState
  unfoldable pub reconcile_warm_pool_instance_state :
      String → List String → Exec (World E) (Unit {0})
  unfolding describe move_described
  reconcile_warm_pool_instance_state state [] = pure tt
  reconcile_warm_pool_instance_state state (id ∷ ids) =
      describe (id ∷ ids) >>= move_described is_stopped state (id ∷ ids)
