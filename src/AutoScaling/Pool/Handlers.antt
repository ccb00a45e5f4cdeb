-- ===== src/AutoScaling/Pool/Handlers.antt =====
-- dispatchPutWarmPool and dispatchDeleteWarmPool of pkg/dc2/dispatcher_autoscaling.go, and the turn of the
-- job that scheduleAsyncWarmPoolDeletion starts.
pub mod Keeps
use dc.Prelude.{String, Bool, true, false, not, Option, none, some, ◌==◌, if◌then◌else◌}
use dc.Api.{Result, ok, err, has_code, is_panic}
use dc.Api.Exec.{Exec, pure, reads, lift, ◌>>=◌, ◌>>◌}
use dc.Executor.{Executor, World, in_storage}
use dc.Instances.Lifecycle.{Settings}
use dc.Instances.Describe.{Library}
use dc.AutoScaling.Groups.{Group, GroupJson, pool_pending_delete}
use dc.AutoScaling.Stored.{load_group, save_group}
use dc.AutoScaling.Members.{terminate_members, warm_instance_ids}
use dc.AutoScaling.WarmJobs.{schedule_warm_pool_deletion, cancel_warm_pool_delete_job}
use dc.AutoScaling.Scaling.{clear_warm_pool_configuration, reconcile_warm_pool_instance_state}
use dc.AutoScaling.Resize.{reconcile_warm_pool}
use dc.AutoScaling.Pool.{PutWarmPool, DeleteWarmPool, with_warm_pool, in_warm}

module _ {R : Type 0} (json : GroupJson R) (lib : Library) {E : Type 0} (x : Executor E)
    (o : Settings) where
  load : String → Exec (World E) (Group R)
  load name = reads (λ (w : World E). load_group json o.is_time name w.storage)

  save : Group R → Exec (World E) (Unit {0})
  save g = in_storage (save_group json g)

  settle_states : Option String → Group R → Exec (World E) (Unit {0})
  settle_states none g = pure tt
  settle_states (some s) g =
      warm_instance_ids x o true g.name >>= reconcile_warm_pool_instance_state x o g.warm_pool_state

  -- dispatchPutWarmPool
  unfoldable pub dispatch_put_warm_pool : PutWarmPool → Exec (World E) (Unit {0})
  unfolding load save settle_states
  dispatch_put_warm_pool r = do
    old ← load r.group
    g ← lift (with_warm_pool r old)
    save g
    in_warm (cancel_warm_pool_delete_job r.group)
    reconcile_warm_pool json lib x o g
    settle_states r.pool_state g

  force_deletion : Group R → Exec (World E) (Unit {0})
  unfolding save
  force_deletion g = do
    in_warm (cancel_warm_pool_delete_job g.name)
    ids ← warm_instance_ids x o true g.name
    terminate_members x o ids
    save (clear_warm_pool_configuration g)

  delete_pool : Bool → Group R → Exec (World E) (Unit {0})
  unfolding save force_deletion
  delete_pool force g =
      if not g.warm_pool_enabled
      then in_warm (cancel_warm_pool_delete_job g.name)
      else save (record g { warm_pool_status = pool_pending_delete })
        >> (if force
            then force_deletion (record g { warm_pool_status = pool_pending_delete })
            else in_warm (schedule_warm_pool_deletion g.name))

  -- dispatchDeleteWarmPool
  unfoldable pub dispatch_delete_warm_pool : DeleteWarmPool → Exec (World E) (Unit {0})
  unfolding load delete_pool
  dispatch_delete_warm_pool r = load r.group >>= delete_pool r.force_delete

  abbrev retry_of : World E × Result (Unit {0}) → World E × Result Bool
  retry_of (w, ok u) = (w, ok false)
  retry_of (w, err e) = (w, if is_panic e then err e else ok true)

  -- One turn of the job that scheduleAsyncWarmPoolDeletion starts, and whether it has to try again.
  unfoldable pub warm_pool_deletion_turn : String → Exec (World E) Bool
  warm_pool_deletion_turn name w = elim (load_group json o.is_time name w.storage) [
    | err e ↦ (w, ok (not (has_code e "ValidationError")))
    | ok g ↦
        if not g.warm_pool_enabled
        then (w, ok false)
        else if not (g.warm_pool_status == pool_pending_delete)
        then (w, ok false)
        else retry_of (reconcile_warm_pool json lib x o g w)
  ]
