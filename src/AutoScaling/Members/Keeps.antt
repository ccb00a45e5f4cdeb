-- ===== src/AutoScaling/Members/Keeps.antt =====
-- Finding and ending the instances of a group, in pkg/dc2/dispatcher_autoscaling.go, leaves the sizes of
-- groups in order.
use dc.Prelude.{String, Bool, true, false, not, List, [], ◌∷◌, inl, inr, Bool-cases}
use dc.Api.{Error, Result-cases, has_code}
use dc.Storage.{instance_type, registered_resources, remove_resource}
use dc.Prelude.{if◌then◌else◌}
use dc.Api.Exec.{pure, raise, lift, ◌>>=◌, ◌>>◌}
use dc.Executor.{in_exe, Executor, World, Description, runtime_id, executor_instance_ids}
use dc.Executor.Keeps.{
  Keeps, Stored, bind-Keeps, then-Keeps, rescue-Keeps, each-Keeps, pure-Keeps, raise-Keeps,
  gets-Keeps, reads-Keeps, in_imds-Keeps, cancel_reclaim-Keeps, lift-Keeps, in_storage-Keeps,
  in_exe-Keeps,
}
use dc.Volumes.Lifecycle.Keeps.{cleanup_volumes-Keeps}
use dc.Instances.Lifecycle.{Settings}
use dc.Instances.Lifecycle.Keeps.{terminate_instances-Keeps}
use dc.Imds.{clear_spot_instance_action}
use dc.AutoScaling.InOrder.{InOrder, remove-InOrder}
use dc.AutoScaling.InOrder.Writes.{close_spot_request-InOrder}
use dc.AutoScaling.Members.{
  sorted, described, missing, described_as, needs_replacement, members, managed, forgive_missing,
  clean_metadata, forget_member, cleanup_missing, terminate_member, terminate_members, unless_empty,
  live_members, group_instance_ids, warm_instance_ids, managed_instance_ids,
}

-- The storage of the state of the Dispatcher is in order.
abbrev pub Ordered : {E : Type 0} → World E → Type 0
Ordered = Stored InOrder

forgiving-Keeps : (id : String) → Keeps InOrder (λ s. forgive_missing (remove_resource id s))
forgiving-Keeps id = record {
  run = λ s q. elim (Result-cases (remove_resource id s).1) [
    | inl (e, p) ↦ rw p ((remove-InOrder id).run s q)
    | inr (u, p) ↦ rw p ((remove-InOrder id).run s q)
  ];
}

module _ {E : Type 0} (x : Executor E) where
  forget_member-Keeps : (id : String) → Keeps (Ordered {E = E}) (forget_member x id)
  unfolding forget_member
  forget_member-Keeps id = then-Keeps (cancel_reclaim-Keeps InOrder id) (
      bind-Keeps (lift-Keeps (runtime_id id)) λ c.
        then-Keeps (in_imds-Keeps InOrder (clear_spot_instance_action c)) (
          bind-Keeps (gets-Keeps (λ (w : World E). x.now w.exe)) λ now.
            then-Keeps
              (rescue-Keeps
                (in_storage-Keeps (
                  close_spot_request-InOrder id "instance-terminated-by-service"
                    "Instance terminated by service." now))
                (λ e. pure-Keeps tt))
              (then-Keeps (in_storage-Keeps (forgiving-Keeps id))
                (in_imds-Keeps InOrder (clean_metadata c)))))

  pub cleanup_missing-Keeps : (ids : List String) → Keeps (Ordered {E = E}) (cleanup_missing x ids)
  unfolding cleanup_missing
  cleanup_missing-Keeps [] = pure-Keeps tt
  cleanup_missing-Keeps (id ∷ ids) =
      then-Keeps (cleanup_volumes-Keeps x InOrder remove-InOrder (id ∷ ids))
        (each-Keeps (id ∷ ids) forget_member-Keeps)

module _ {E : Type 0} (x : Executor E) (o : Settings) where
  excused-Keeps :
      (e : Error)
      → Keeps {A = Unit {0}}
          (Ordered {E = E})
          (if has_code e "InvalidInstanceID.NotFound" then pure tt else raise e)
  excused-Keeps e = elim (Bool-cases (has_code e "InvalidInstanceID.NotFound")) [
    | inl b ↦ rw b (pure-Keeps tt)
    | inr b ↦ rw b (raise-Keeps e)
  ]

  terminate_member-Keeps : (id : String) → Keeps (Ordered {E = E}) (terminate_member x o id)
  unfolding terminate_member
  terminate_member-Keeps id = bind-Keeps (lift-Keeps (runtime_id id)) λ c.
      rescue-Keeps
        (bind-Keeps (terminate_instances-Keeps x o InOrder (c ∷ []) false) λ changes. pure-Keeps tt)
        excused-Keeps

  pub terminate_members-Keeps :
      (ids : List String) → Keeps (Ordered {E = E}) (terminate_members x o ids)
  unfolding terminate_members
  terminate_members-Keeps [] = pure-Keeps tt
  terminate_members-Keeps (id ∷ ids) = then-Keeps (each-Keeps (id ∷ ids) terminate_member-Keeps) (
      then-Keeps (cleanup_volumes-Keeps x InOrder remove-InOrder (id ∷ ids))
        (each-Keeps (id ∷ ids) (forget_member-Keeps x)))

  unless_empty-Keeps :
      (ids : List String) → Keeps (Ordered {E = E}) (unless_empty x o (terminate_members x o) ids)
  unfolding unless_empty
  unless_empty-Keeps [] = pure-Keeps tt
  unless_empty-Keeps (id ∷ ids) = terminate_members-Keeps (id ∷ ids)

  live_members-Keeps :
      (reconcile : Bool) (ids : List String) (ds : List Description)
      → Keeps (Ordered {E = E}) (live_members x o reconcile ids ds)
  unfolding live_members
  live_members-Keeps false ids ds = pure-Keeps (described ds ids)
  live_members-Keeps true ids ds =
      then-Keeps (unless_empty-Keeps (described_as needs_replacement ds ids)) (
        then-Keeps (cleanup_missing-Keeps x (missing ds ids))
          (pure-Keeps (described_as (λ d. not (needs_replacement d)) ds ids)))

  group_members-Keeps :
      (reconcile : Bool) (ids : List String)
      → Keeps {A = List String} (Ordered {E = E}) (elim ids [
        | [] ↦ pure []
        | id ∷ more ↦ (do
          runtime_ids ← lift (executor_instance_ids (id ∷ more))
          ds ← in_exe (x.describe_instances runtime_ids)
          live_members x o reconcile (id ∷ more) ds)
      ])
  group_members-Keeps reconcile [] = pure-Keeps []
  group_members-Keeps reconcile (id ∷ more) =
      bind-Keeps (lift-Keeps (executor_instance_ids (id ∷ more))) λ runtime_ids.
        bind-Keeps (in_exe-Keeps InOrder (x.describe_instances runtime_ids))
          λ ds. live_members-Keeps reconcile (id ∷ more) ds

  pub group_instance_ids-Keeps :
      (reconcile : Bool) (group : String)
      → Keeps (Ordered {E = E}) (group_instance_ids x o reconcile group)
  unfolding group_instance_ids
  group_instance_ids-Keeps reconcile group =
      bind-Keeps
        (reads-Keeps (λ (w : World E).
          members w.storage group false (registered_resources w.storage instance_type)))
        λ ids. group_members-Keeps reconcile (sorted ids)

  warm_members-Keeps :
      (reconcile : Bool) (ids : List String)
      → Keeps {A = List String} (Ordered {E = E}) (elim ids [
        | [] ↦ pure []
        | id ∷ more ↦ (do
          runtime_ids ← lift (executor_instance_ids (id ∷ more))
          ds ← in_exe (x.describe_instances runtime_ids)
          if reconcile then cleanup_missing x (missing ds (id ∷ more)) else pure tt
          pure (described ds (id ∷ more)))
      ])
  warm_members-Keeps reconcile [] = pure-Keeps []
  warm_members-Keeps true (id ∷ more) =
      bind-Keeps (lift-Keeps (executor_instance_ids (id ∷ more))) λ runtime_ids.
        bind-Keeps (in_exe-Keeps InOrder (x.describe_instances runtime_ids)) λ ds.
          then-Keeps (cleanup_missing-Keeps x (missing ds (id ∷ more)))
            (pure-Keeps (described ds (id ∷ more)))
  warm_members-Keeps false (id ∷ more) =
      bind-Keeps (lift-Keeps (executor_instance_ids (id ∷ more))) λ runtime_ids.
        bind-Keeps (in_exe-Keeps InOrder (x.describe_instances runtime_ids))
          λ ds. then-Keeps (pure-Keeps tt) (pure-Keeps (described ds (id ∷ more)))

  pub warm_instance_ids-Keeps :
      (reconcile : Bool) (group : String)
      → Keeps (Ordered {E = E}) (warm_instance_ids x o reconcile group)
  unfolding warm_instance_ids
  warm_instance_ids-Keeps reconcile group =
      bind-Keeps
        (reads-Keeps (λ (w : World E).
          members w.storage group true (registered_resources w.storage instance_type)))
        λ ids. warm_members-Keeps reconcile (sorted ids)

  pub managed_instance_ids-Keeps :
      (group : String) → Keeps (Ordered {E = E}) (managed_instance_ids x o group)
  unfolding managed_instance_ids
  managed_instance_ids-Keeps group =
      bind-Keeps (group_instance_ids-Keeps true group)
        λ ids. reads-Keeps (λ (w : World E). managed x o w.storage ids)
