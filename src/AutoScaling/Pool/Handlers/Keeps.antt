-- ===== src/AutoScaling/Pool/Handlers/Keeps.antt =====
-- PutWarmPool, DeleteWarmPool and the job that deletes warm pools, in pkg/dc2/dispatcher_autoscaling.go, leave
-- the sizes of groups in order, in every course.
use dc.Prelude.{String, Bool, true, false, not, Option, none, some, ◌==◌, inl, inr, if◌then◌else◌}
use dc.Api.{Result, ok, err, Result-cases}
use dc.Api.Exec.{Exec, ◌>>=◌}
use dc.Executor.{Executor, World}
use dc.Executor.Keeps.{
  Keeps, bind-Keeps, then-Keeps, pure-Keeps, in_storage-Keeps, lift_then-Keeps, reads_then-Keeps,
}
use dc.Instances.Lifecycle.{Settings}
use dc.Instances.Describe.{Library}
use dc.AutoScaling.Groups.{Group, GroupJson, pool_pending_delete}
use dc.AutoScaling.Stored.{load_group}
use dc.AutoScaling.Stored.Sizes.{load_group-IsSized, save_group-InOrder}
use dc.AutoScaling.Members.Keeps.{Ordered, terminate_members-Keeps, warm_instance_ids-Keeps}
use dc.AutoScaling.WarmJobs.{WarmJobs, schedule_warm_pool_deletion, cancel_warm_pool_delete_job}
use dc.AutoScaling.Scaling.{clear_warm_pool_configuration}
use dc.AutoScaling.Scaling.Keeps.{reconcile_warm_pool_instance_state-Keeps}
use dc.AutoScaling.Resize.{reconcile_warm_pool}
use dc.AutoScaling.Resize.Keeps.{reconcile_warm_pool-Keeps}
use dc.AutoScaling.Handlers.Sizes.{IsSized}
use dc.AutoScaling.Handlers.Sizes.Pools.{with_warm_pool-IsSized}
use dc.AutoScaling.Handlers.Sizes.Evolution.{clear-IsSized}
use dc.AutoScaling.Pool.{PutWarmPool, DeleteWarmPool, with_warm_pool, in_warm}
use dc.AutoScaling.Pool.Handlers.{
  load, save, settle_states, dispatch_put_warm_pool, force_deletion, delete_pool,
  dispatch_delete_warm_pool, retry_of, warm_pool_deletion_turn,
}

in_warm-Keeps : {E : Type 0} (f : WarmJobs → WarmJobs) → Keeps (Ordered {E = E}) (in_warm f)
in_warm-Keeps f = record { run = λ w q. q }

either-Keeps :
    {E : Type 0} (b : Bool) {m n : Exec (World E) (Unit {0})}
    → Keeps (Ordered {E = E}) m
    → Keeps (Ordered {E = E}) n
    → Keeps (Ordered {E = E}) (if b then m else n)
either-Keeps true one other = one
either-Keeps false one other = other

-- Two tests of which each may end the turn.
after_tests :
    {E : Type 0} (a b : Bool) (w : World E) (last : World E × Result Bool)
    → Ordered w
    → Ordered last.0
    → Ordered (if a then (w, ok false) else if b then (w, ok false) else last).0
after_tests true b w last q r = q
after_tests false true w last q r = q
after_tests false false w last q r = r

pending-IsSized :
    {R : Type 0} (g : Group R)
    → IsSized g
    → IsSized (record g { warm_pool_status = pool_pending_delete })
pending-IsSized g sized = record {
  least = sized.least;
  enough = sized.enough;
  most = sized.most;
  pool_least = sized.pool_least;
  pool_most = sized.pool_most;
}

module _ {R : Type 0} (json : GroupJson R) (lib : Library) {E : Type 0} (x : Executor E)
    (o : Settings) where
  load_then-Keeps :
      {B : Type 0} (name : String) {k : Group R → Exec (World E) B}
      → ((g : Group R) → IsSized g → Keeps (Ordered {E = E}) (k g))
      → Keeps (Ordered {E = E}) (load json lib x o name >>= k)
  unfolding load
  load_then-Keeps name rest =
      reads_then-Keeps (λ (w : World E). load_group json o.is_time name w.storage)
        λ w g q h. rest g (load_group-IsSized json o.is_time name w.storage g q h)

  save-Keeps : (g : Group R) → IsSized g → Keeps (Ordered {E = E}) (save json lib x o g)
  unfolding save
  save-Keeps g sized = in_storage-Keeps (save_group-InOrder json g sized)

  settle_states-Keeps :
      (state : Option String) (g : Group R)
      → Keeps (Ordered {E = E}) (settle_states json lib x o state g)
  unfolding settle_states
  settle_states-Keeps none g = pure-Keeps tt
  settle_states-Keeps (some s) g =
      bind-Keeps (warm_instance_ids-Keeps x o true g.name)
        λ ids. reconcile_warm_pool_instance_state-Keeps x o g.warm_pool_state ids

  pub dispatch_put_warm_pool-Keeps :
      (r : PutWarmPool) → Keeps (Ordered {E = E}) (dispatch_put_warm_pool json lib x o r)
  unfolding dispatch_put_warm_pool
  dispatch_put_warm_pool-Keeps r = load_then-Keeps r.group λ old sized.
      lift_then-Keeps (with_warm_pool r old) λ g h.
        let new = with_warm_pool-IsSized r old g sized h in
        then-Keeps (save-Keeps g new) (
          then-Keeps (in_warm-Keeps (cancel_warm_pool_delete_job r.group)) (
            then-Keeps (reconcile_warm_pool-Keeps json lib x o g new)
              (settle_states-Keeps r.pool_state g)))

  force_deletion-Keeps :
      (g : Group R) → IsSized g → Keeps (Ordered {E = E}) (force_deletion json lib x o g)
  unfolding force_deletion
  force_deletion-Keeps g sized = then-Keeps (in_warm-Keeps (cancel_warm_pool_delete_job g.name)) (
      bind-Keeps (warm_instance_ids-Keeps x o true g.name) λ ids.
        then-Keeps (terminate_members-Keeps x o ids)
          (save-Keeps (clear_warm_pool_configuration g) (clear-IsSized g sized)))

  delete_if-Keeps :
      (force : Bool) (g : Group R)
      → IsSized g
      → Keeps {A = Unit {0}} (Ordered {E = E}) (
          if force
          then force_deletion json lib x o g
          else in_warm (schedule_warm_pool_deletion g.name))
  delete_if-Keeps true g sized = force_deletion-Keeps g sized
  delete_if-Keeps false g sized = in_warm-Keeps (schedule_warm_pool_deletion g.name)

  delete_pool-Keeps :
      (force : Bool) (g : Group R)
      → IsSized g
      → Keeps (Ordered {E = E}) (delete_pool json lib x o force g)
  unfolding delete_pool
  delete_pool-Keeps force g sized =
      let pending = record g { warm_pool_status = pool_pending_delete } in
      let fits = pending-IsSized g sized in
      either-Keeps (not g.warm_pool_enabled) (in_warm-Keeps (cancel_warm_pool_delete_job g.name))
        (then-Keeps (save-Keeps pending fits) (delete_if-Keeps force pending fits))

  pub dispatch_delete_warm_pool-Keeps :
      (r : DeleteWarmPool) → Keeps (Ordered {E = E}) (dispatch_delete_warm_pool json lib x o r)
  unfolding dispatch_delete_warm_pool
  dispatch_delete_warm_pool-Keeps r =
      load_then-Keeps r.group λ g sized. delete_pool-Keeps r.force_delete g sized

  retried : (a : World E × Result (Unit {0})) → Ordered a.0 → Ordered (retry_of json lib x o a).0
  retried (w, ok u) q = q
  retried (w, err e) q = q

  pub warm_pool_deletion_turn-Keeps :
      (name : String) → Keeps (Ordered {E = E}) (warm_pool_deletion_turn json lib x o name)
  unfolding warm_pool_deletion_turn
  warm_pool_deletion_turn-Keeps name = record {
    run = λ w q. elim (Result-cases (load_group json o.is_time name w.storage)) [
      | inl (e, p) ↦ rw (p, warm_pool_deletion_turn) q
      | inr (g, p) ↦
          let sized = load_group-IsSized json o.is_time name w.storage g q p in
          rw (p, warm_pool_deletion_turn)
            (after_tests (not g.warm_pool_enabled) (not (g.warm_pool_status == pool_pending_delete))
              w (retry_of json lib x o (reconcile_warm_pool json lib x o g w)) q
              (retried (reconcile_warm_pool json lib x o g w)
                ((reconcile_warm_pool-Keeps json lib x o g sized).run w q)))
    ];
  }
