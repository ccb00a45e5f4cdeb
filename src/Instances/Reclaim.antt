-- ===== src/Instances/Reclaim.antt =====
-- reclaimSpotInstance and stopInstancesForSpotReclaim of pkg/dc2/dispatcher_spot.go: what happens to
-- an instance when its time has come.
use dc.Prelude.{String, true, false, ◌||◌, List, [], ◌∷◌, ◌==◌, if◌then◌else◌}
use Prim.Native.String.{◌++◌}
use dc.Api.{Error, ok, err, has_code}
use dc.Api.Exec
use dc.Api.Exec.{Exec, pure, raise, lift, gets, reads, ◌>>=◌, ◌>>◌}
use dc.Storage.{
  resource_attributes, key_or_empty, set_resource_attributes, remove_resource_attributes,
}
use dc.Dispatcher.Names
use dc.Spot.{terminate}
use dc.Spot.Requests.{close_spot_request}
use dc.Volumes.Data.{attribute, find_instance}
use dc.Executor.{
  Executor, World, StateChange, in_storage, api_instance_id, executor_instance_ids, each,
}
use dc.Instances.Lifecycle.{Settings, stop_instances}
use dc.Instances.Handlers.{named, spot_termination, terminate_with_state_reason}

-- attrOrDefault
abbrev or_default : String → String → String
or_default value default = if value == "" then default else value

module _ {E : Type 0} (x : Executor E) (o : Settings) where
  mark_interrupted : String → StateChange → Exec (World E) (Unit {0})
  mark_interrupted behavior c = do
    let id = api_instance_id c.id
    in_storage (
        Exec.wrap (
          set_resource_attributes id (
            attribute Names.transition_reason ("Server.SpotInstanceInterruption:" ++ behavior)
            ∷ [])))
    in_storage (
        Exec.wrap (
          remove_resource_attributes id (
            named Names.reason_code ∷ named Names.reason_message ∷ named Names.terminated_at ∷ [])))
    now ← gets (λ (w : World E). x.now w.exe)
    in_storage (
        close_spot_request id "instance-terminated-no-capacity"
          "Instance terminated by simulated capacity interruption." now)

  -- stopInstancesForSpotReclaim
  unfoldable pub stop_for_reclaim : List String → String → Exec (World E) (Unit {0})
  unfolding mark_interrupted
  stop_for_reclaim instance_ids behavior = do
    ids ← lift (executor_instance_ids instance_ids)
    changes ← stop_instances x o ids true
    each (mark_interrupted behavior) changes

  end_reclaimed : String → String → Exec (World E) (Unit {0})
  unfolding stop_for_reclaim
  end_reclaimed id behavior =
      let mode = or_default behavior terminate in
      if mode == "stop" || mode == "hibernate"
      then Exec.wrap (stop_for_reclaim (id ∷ []) behavior)
      else Exec.wrap (
          terminate_with_state_reason x o (id ∷ []) "Server.SpotInstanceTermination"
            spot_termination
            "Server.SpotInstanceTermination: Instance terminated due to spot interruption" false
          >>= λ changes. pure tt)

  -- An instance that is gone is left alone.
  missing : Error → Exec (World E) (Unit {0})
  missing e = if has_code e "InvalidParameterValue" then pure tt else raise e

  unfoldable pub reclaim_spot_instance : String → Exec (World E) (Unit {0})
  unfolding missing end_reclaimed
  reclaim_spot_instance id w = elim (find_instance id w.storage) [
    | err e ↦ missing e w
    | ok i ↦ elim (resource_attributes w.storage id) [
      | err e ↦ (w, err (Error.wrapped e))
      | ok attrs ↦ end_reclaimed id (key_or_empty attrs Names.interrupt_mode) w
    ]
  ]
