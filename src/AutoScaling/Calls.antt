-- ===== src/AutoScaling/Calls.antt =====
-- Courses of the calls of pkg/dc2/dispatcher_autoscaling.go that change groups, each of which may also end in
-- an error: the state then stays as far as the call has come.
use dc.Prelude.{String, ◌≡◌, Bool, Option, List, [], ◌∷◌}
use dc.Prelude.Int.{ℤ}
use dc.Api.{ok}
use dc.Executor.{Executor, World}
use dc.Instances.Lifecycle.{Settings}
use dc.Instances.Describe.{Library}
use dc.AutoScaling.Groups.{Group}
use dc.AutoScaling.Stored.{load_group}
use dc.AutoScaling.Stored.Sizes.{load_group-IsSized}
use dc.AutoScaling.Members.Keeps.{Ordered}
use dc.AutoScaling.Template.{Catalog}
use dc.AutoScaling.Pool.{PutWarmPool, DeleteWarmPool}
use dc.AutoScaling.Pool.Handlers.{
  dispatch_put_warm_pool, dispatch_delete_warm_pool, warm_pool_deletion_turn,
}
use dc.AutoScaling.Pool.Handlers.Keeps.{
  dispatch_put_warm_pool-Keeps, dispatch_delete_warm_pool-Keeps, warm_pool_deletion_turn-Keeps,
}
use dc.AutoScaling.Handlers.{CreateGroup, UpdateGroup, DetachInstances}
use dc.AutoScaling.Handlers.Sizes.{IsSized}
use dc.AutoScaling.Handlers.Changes.{
  dispatch_create_auto_scaling_group, dispatch_update_auto_scaling_group,
  dispatch_set_desired_capacity, dispatch_detach_instances, dispatch_delete_auto_scaling_group,
  reconcile_all_groups,
}
use dc.AutoScaling.Handlers.Changes.Updates.{dispatch_update_auto_scaling_group-Keeps}
use dc.AutoScaling.Handlers.Changes.Keeps.{
  dispatch_create_auto_scaling_group-Keeps, dispatch_set_desired_capacity-Keeps,
  dispatch_detach_instances-Keeps, dispatch_delete_auto_scaling_group-Keeps,
  reconcile_all_groups-Keeps,
}

pub data GroupCall (R : Type 0) : Type 0 where
  creates : CreateGroup R → GroupCall R
  updates : UpdateGroup R → GroupCall R
  sets_capacity : String → Option ℤ → GroupCall R
  detaches : DetachInstances → GroupCall R
  deletes : String → Bool → GroupCall R
  puts_pool : PutWarmPool → GroupCall R
  deletes_pool : DeleteWarmPool → GroupCall R
  tries_deletion : String → GroupCall R
  reconciles : GroupCall R

module _ {R : Type 0} (c : Catalog R) (lib : Library) {E : Type 0} (x : Executor E)
    (o : Settings) where
  -- The state after a call, whatever it answers.
  abbrev after_call : GroupCall R → World E → World E
  after_call (creates r) w = (dispatch_create_auto_scaling_group c lib x o r w).0
  after_call (updates r) w = (dispatch_update_auto_scaling_group c lib x o r w).0
  after_call (sets_capacity name desired) w =
      (dispatch_set_desired_capacity c lib x o name desired w).0
  after_call (detaches r) w = (dispatch_detach_instances c lib x o r w).0
  after_call (deletes name force) w = (dispatch_delete_auto_scaling_group c lib x o name force w).0
  after_call (puts_pool r) w = (dispatch_put_warm_pool c.group_json lib x o r w).0
  after_call (deletes_pool r) w = (dispatch_delete_warm_pool c.group_json lib x o r w).0
  after_call (tries_deletion name) w = (warm_pool_deletion_turn c.group_json lib x o name w).0
  after_call reconciles w = (reconcile_all_groups c lib x o w).0

  abbrev pub after_calls : List (GroupCall R) → World E → World E
  after_calls [] w = w
  after_calls (call ∷ calls) w = after_calls calls (after_call call w)

  after_call-Ordered : (call : GroupCall R) (w : World E) → Ordered w → Ordered (after_call call w)
  after_call-Ordered (creates r) w q =
      (dispatch_create_auto_scaling_group-Keeps c lib x o r).run w q
  after_call-Ordered (updates r) w q =
      (dispatch_update_auto_scaling_group-Keeps c lib x o r).run w q
  after_call-Ordered (sets_capacity name desired) w q =
      (dispatch_set_desired_capacity-Keeps c lib x o name desired).run w q
  after_call-Ordered (detaches r) w q = (dispatch_detach_instances-Keeps c lib x o r).run w q
  after_call-Ordered (deletes name force) w q =
      (dispatch_delete_auto_scaling_group-Keeps c lib x o name force).run w q
  after_call-Ordered (puts_pool r) w q =
      (dispatch_put_warm_pool-Keeps c.group_json lib x o r).run w q
  after_call-Ordered (deletes_pool r) w q =
      (dispatch_delete_warm_pool-Keeps c.group_json lib x o r).run w q
  after_call-Ordered (tries_deletion name) w q =
      (warm_pool_deletion_turn-Keeps c.group_json lib x o name).run w q
  after_call-Ordered reconciles w q = (reconcile_all_groups-Keeps c lib x o).run w q

  after_calls-Ordered :
      (calls : List (GroupCall R)) (w : World E) → Ordered w → Ordered (after_calls calls w)
  after_calls-Ordered [] w q = q
  after_calls-Ordered (call ∷ calls) w q =
      after_calls-Ordered calls (after_call call w) (after_call-Ordered call w q)

  -- Start from a valid storage in which the sizes of every stored group are in order. After any
  -- sequence of creations, updates, new capacities, detachments, deletions, changes of warm pools, turns
  -- of the job that deletes warm pools and reconciliations, each of them in any course, every group that
  -- is loaded has 0 ≤ MinSize ≤ DesiredCapacity ≤ MaxSize, and the sizes of its warm pool are at least 0.
  pub after_calls-IsSized :
      (calls : List (GroupCall R)) (w : World E) (name : String) (g : Group R)
      → Ordered w
      → load_group c.group_json o.is_time name (after_calls calls w).storage ≡ ok g
      → IsSized g
  after_calls-IsSized calls w name g q h =
      load_group-IsSized c.group_json o.is_time name (after_calls calls w).storage g
        (after_calls-Ordered calls w q) h
