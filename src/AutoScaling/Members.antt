-- ===== src/AutoScaling/Members.antt =====
-- pkg/dc2/dispatcher_autoscaling.go: which instances belong to a group or to its warm pool, and how
-- they end.
pub mod Keeps
use dc.Prelude.{
  ◌||◌, String, Bool, true, false, not, ◌&&◌, Option, none, some, List, [], ◌∷◌, ◌==◌,
  if◌then◌else◌,
}
use dc.Prelude.Sorting.{sort_by}
use dc.Prelude.Strconv.{parse_bool}
use dc.Api.{Error, Result, ok, err, is_not_found, wrapped, has_code}
use dc.Api
use dc.Api.Exec.{Exec, pure, raise, lift, gets, reads, ◌>>=◌, ◌>>◌, rescue}
use dc.Storage.{
  Storage, Resource, Attributes, instance_type, registered_resources, resource_attributes,
  remove_resource, key_or_empty,
}
use dc.Imds.{Imds, set_enabled, revoke_tokens, set_tags, clear_spot_instance_action}
use dc.Spot.Requests.{close_spot_request}
use dc.Volumes.Lifecycle.{cleanup_volumes}
use dc.Executor.{
  Executor, World, Description, in_storage, in_imds, in_exe, cancel_reclaim, runtime_id,
  executor_instance_ids, each, running, unhealthy,
}
use dc.Instances.Lifecycle.{Settings, description_of, terminate_instances}
use dc.AutoScaling.Names

abbrev is_set : Option Bool → Bool
is_set none = false
is_set (some b) = b

-- autoScalingInstanceIsWarm
unfoldable pub is_warm : Attributes → Bool
is_warm attrs = is_set (parse_bool (key_or_empty attrs Names.warm_pool))

-- autoScalingInstanceIsSynchronous
unfoldable pub is_synchronous : Attributes → Bool
is_synchronous attrs = is_set (parse_bool (key_or_empty attrs Names.synchronous_provisioning))

-- autoScalingInstanceNeedsReplacement
unfoldable pub needs_replacement : Description → Bool
needs_replacement d = not (d.state == running) || d.health == unhealthy

-- The instances of the storage that have the group's name, in the warm pool or not.
unfoldable pub members : Storage → String → Bool → List Resource → Result (List String)
members s group warm [] = ok []
members s group warm (r ∷ rs) =
    let rest = members s group warm rs in
    elim (resource_attributes s r.id) [
      | err e ↦ err (wrapped e)
      | ok attrs ↦
          if key_or_empty attrs Names.name == group
            && (if warm then is_warm attrs else not (is_warm attrs))
          then Api.◌>>=◌ rest (λ ids. ok (r.id ∷ ids))
          else rest
    ]

-- slices.Sort
abbrev pub sorted : List String → List String
sorted ids = sort_by (λ (id : String). id) ids

-- The ids that the executor describes, and those that it does not.
unfoldable pub described : List Description → List String → List String
described ds [] = []
described ds (id ∷ ids) =
    let rest = described ds ids in elim (description_of id ds) [ none ↦ rest | some d ↦ id ∷ rest ]

unfoldable pub missing : List Description → List String → List String
missing ds [] = []
missing ds (id ∷ ids) =
    let rest = missing ds ids in elim (description_of id ds) [ none ↦ id ∷ rest | some d ↦ rest ]

-- The ids whose description passes a test.
unfoldable pub described_as : (Description → Bool) → List Description → List String → List String
described_as test ds [] = []
described_as test ds (id ∷ ids) =
    let rest = described_as test ds ids in
    elim (description_of id ds) [ none ↦ rest | some d ↦ if test d then id ∷ rest else rest ]

-- cleanupAutoScalingInstanceMetadata, on the container
unfoldable pub clean_metadata : String → Imds → Imds
clean_metadata c m = set_tags c [] (revoke_tokens c (set_enabled c true m))

abbrev forgive_missing : Storage × Result (Unit {0}) → Storage × Result (Unit {0})
forgive_missing (s, ok u) = (s, ok tt)
forgive_missing (s, err e) = (s, if is_not_found e then ok tt else err (wrapped e))

module _ {E : Type 0} (x : Executor E) where
  -- One turn of the last loop of terminateAutoScalingInstancesWithReason, and of the loop of
  -- cleanupMissingAutoScalingInstances.
  forget_member : String → Exec (World E) (Unit {0})
  unfolding clean_metadata
  forget_member id = do
    cancel_reclaim id
    c ← lift (runtime_id id)
    in_imds (clear_spot_instance_action c)
    now ← gets (λ (w : World E). x.now w.exe)
    rescue
        (in_storage (
          close_spot_request id "instance-terminated-by-service" "Instance terminated by service."
            now))
        (λ e. pure tt)
    in_storage (λ s. forgive_missing (remove_resource id s))
    in_imds (clean_metadata c)

  -- cleanupMissingAutoScalingInstances
  unfoldable pub cleanup_missing : List String → Exec (World E) (Unit {0})
  unfolding forget_member
  cleanup_missing [] = pure tt
  cleanup_missing (id ∷ ids) = do cleanup_volumes x (id ∷ ids); each forget_member (id ∷ ids)

module _ {E : Type 0} (x : Executor E) (o : Settings) where
  -- The turn for one instance in the first loop; the executor may not know it any more.
  terminate_member : String → Exec (World E) (Unit {0})
  terminate_member id = do
    c ← lift (runtime_id id)
    rescue (terminate_instances x o (c ∷ []) false >>= λ changes. pure tt)
        (λ e. if has_code e "InvalidInstanceID.NotFound" then pure tt else raise e)

  -- terminateAutoScalingInstancesWithReason
  unfoldable pub terminate_members : List String → Exec (World E) (Unit {0})
  unfolding terminate_member forget_member
  terminate_members [] = pure tt
  terminate_members (id ∷ ids) = do
    each terminate_member (id ∷ ids)
    cleanup_volumes x (id ∷ ids)
    each (forget_member x) (id ∷ ids)

  unless_empty : (List String → Exec (World E) (Unit {0})) → List String → Exec (World E) (Unit {0})
  unless_empty act [] = pure tt
  unless_empty act (id ∷ ids) = act (id ∷ ids)

  -- autoScalingGroupInstanceIDsForMode from the descriptions on
  live_members : Bool → List String → List Description → Exec (World E) (List String)
  unfolding unless_empty
  live_members false ids ds = pure (described ds ids)
  live_members true ids ds = do
    unless_empty terminate_members (described_as needs_replacement ds ids)
    cleanup_missing x (missing ds ids)
    pure (described_as (λ d. not (needs_replacement d)) ds ids)

  -- autoScalingGroupInstanceIDsForMode
  unfoldable pub group_instance_ids : Bool → String → Exec (World E) (List String)
  unfolding live_members
  group_instance_ids reconcile group = do
    ids ← reads (λ (w : World E).
        members w.storage group false (registered_resources w.storage instance_type))
    elim (sorted ids) [
      | [] ↦ pure []
      | id ∷ more ↦ (do
        runtime_ids ← lift (executor_instance_ids (id ∷ more))
        ds ← in_exe (x.describe_instances runtime_ids)
        live_members reconcile (id ∷ more) ds)
    ]

  -- autoScalingGroupWarmPoolInstanceIDsForMode
  unfoldable pub warm_instance_ids : Bool → String → Exec (World E) (List String)
  warm_instance_ids reconcile group = do
    ids ← reads (λ (w : World E).
        members w.storage group true (registered_resources w.storage instance_type))
    elim (sorted ids) [
      | [] ↦ pure []
      | id ∷ more ↦ (do
        runtime_ids ← lift (executor_instance_ids (id ∷ more))
        ds ← in_exe (x.describe_instances runtime_ids)
        if reconcile then cleanup_missing x (missing ds (id ∷ more)) else pure tt
        pure (described ds (id ∷ more)))
    ]

  -- The loop of autoScalingGroupManagedInstanceIDsForMode.
  unfoldable pub managed : Storage → List String → Result (List String)
  managed s [] = ok []
  managed s (id ∷ ids) =
      let rest = managed s ids in
      elim (resource_attributes s id) [
        | err e ↦ if is_not_found e then rest else err (wrapped e)
        | ok attrs ↦ if is_synchronous attrs then rest else Api.◌>>=◌ rest (λ more. ok (id ∷ more))
      ]

  -- autoScalingGroupManagedInstanceIDs
  unfoldable pub managed_instance_ids : String → Exec (World E) (List String)
  managed_instance_ids group = do
    ids ← group_instance_ids true group
    reads (λ (w : World E). managed w.storage ids)
