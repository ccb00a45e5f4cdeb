-- ===== src/Instances/Handlers.antt =====
-- pkg/dc2/dispatcher_instance.go: stopping, starting and terminating instances, and the options of
-- their metadata.
pub mod Reset
use dc.Prelude.{
  String, Bool, true, false, not, Option, none, some, List, [], ◌∷◌, map, ◌==◌, if◌then◌else◌,
}
use Prim.Native.String.{◌++◌}
use dc.Prelude.Text.{to_lower}
use dc.Api.{Error, Result, ok, err, invalid_parameter_value}
use dc.Api.Exec
use dc.Api.Exec.{Exec, pure, raise, lift, gets, reads, ◌>>=◌, ◌>>◌, fail_if}
use dc.Storage.{Attribute, set_resource_attributes, remove_resource_attributes}
use dc.Imds.{Imds, enabled, set_enabled, revoke_tokens, set_tags, clear_spot_instance_action}
use dc.Dispatcher.Names
use dc.Spot.Requests.{close_spot_request}
use dc.Volumes.Data.{attribute, find_instance}
use dc.Volumes.Lifecycle.{cleanup_volumes}
use dc.Executor.{
  Executor, World, StateChange, imds_of, in_storage, in_imds, cancel_reclaim, api_instance_id,
  runtime_id, executor_instance_ids, each,
}
use dc.Instances.Lifecycle.{Settings, stop_instances, start_instances, terminate_instances}

abbrev user_initiated : String
user_initiated = "Client.UserInitiatedShutdown"

abbrev user_initiated_message : String
user_initiated_message = "Client.UserInitiatedShutdown: User initiated shutdown"

abbrev pub spot_termination : String
spot_termination = "Server.SpotInstanceTermination"

-- A name to remove whatever its value is.
abbrev pub named : String → Attribute
named k = attribute k ""

-- userInitiatedTransitionReason
abbrev user_initiated_reason : Settings → String → String
user_initiated_reason o now = "User initiated (" ++ o.gmt now ++ " GMT)"

-- StopInstancesRequest and TerminateInstancesRequest
pub record EndRequest : Type 0 where
  pub dry_run : Bool
  pub instance_ids : List String
  pub force : Bool

pub record StartRequest : Type 0 where
  pub dry_run : Bool
  pub instance_ids : List String

-- ModifyInstanceMetadataOptionsRequest
pub record MetadataRequest : Type 0 where
  pub dry_run : Bool
  pub instance_id : String
  pub http_endpoint : Option String

api_changes : List StateChange → List StateChange
api_changes cs = map (λ (c : StateChange). record c { id = api_instance_id c.id }) cs

abbrev spot_code : String → String
spot_code reason =
    if reason == spot_termination
    then "instance-terminated-no-capacity"
    else "instance-terminated-by-user"

abbrev spot_message : String → String
spot_message reason =
    if reason == spot_termination
    then "Instance terminated by simulated capacity interruption."
    else "Instance terminated by user."

-- The endpoint that a request asks for: the one there is if it names none.
requested_endpoint : Option String → Bool → Result Bool
requested_endpoint none current = ok current
requested_endpoint (some text) current =
    if to_lower text == "enabled"
    then ok true
    else if to_lower text == "disabled"
    then ok false
    else err (invalid_parameter_value "HttpEndpoint")

-- What the metadata service forgets of an instance that ends.
abbrev pub reset_imds : String → Imds → Imds
reset_imds c m =
    set_tags c [] (revoke_tokens c (set_enabled c true (clear_spot_instance_action c m)))

module _ {E : Type 0} (x : Executor E) (o : Settings) where
  mark_stopped : StateChange → Exec (World E) (Unit {0})
  mark_stopped c = do
    now ← gets (λ (w : World E). x.now w.exe)
    in_storage (
        Exec.wrap (
          set_resource_attributes (api_instance_id c.id)
            (attribute Names.transition_reason (user_initiated_reason o now) ∷ [])))
    in_storage (
        Exec.wrap (
          remove_resource_attributes (api_instance_id c.id) (
            named Names.reason_code ∷ named Names.reason_message ∷ named Names.terminated_at ∷ [])))

  unfoldable pub dispatch_stop_instances : EndRequest → Exec (World E) (List StateChange)
  unfolding mark_stopped api_changes
  dispatch_stop_instances r = do
    fail_if r.dry_run Error.dry_run
    ids ← lift (executor_instance_ids r.instance_ids)
    changes ← stop_instances x o ids r.force
    each mark_stopped changes
    pure (api_changes changes)

  mark_started : StateChange → Exec (World E) (Unit {0})
  mark_started c = in_storage (
      Exec.wrap (
        remove_resource_attributes (api_instance_id c.id) (
          named Names.transition_reason
          ∷ named Names.reason_code
          ∷ named Names.reason_message
          ∷ named Names.terminated_at
          ∷ [])))

  unfoldable pub dispatch_start_instances : StartRequest → Exec (World E) (List StateChange)
  unfolding mark_started api_changes
  dispatch_start_instances r = do
    fail_if r.dry_run Error.dry_run
    ids ← lift (executor_instance_ids r.instance_ids)
    changes ← start_instances x o ids
    each mark_started changes
    pure (api_changes changes)

  mark_terminated : String → String → String → String → StateChange → Exec (World E) (Unit {0})
  mark_terminated reason code message now c = in_storage (
      Exec.wrap (
        set_resource_attributes (api_instance_id c.id) (
          attribute Names.transition_reason reason
          ∷ attribute Names.reason_code code
          ∷ attribute Names.reason_message message
          ∷ attribute Names.terminated_at now
          ∷ [])))

  -- The turn for one instance in the last loop of terminateInstancesWithStateReason.
  forget_instance : String → String → Exec (World E) (Unit {0})
  forget_instance code id = do
    cancel_reclaim id
    c ← lift (runtime_id id)
    in_imds (reset_imds c)
    now ← gets (λ (w : World E). x.now w.exe)
    in_storage (close_spot_request id (spot_code code) (spot_message code) now)

  -- What terminateInstancesWithStateReason writes once the instances have ended.
  write_termination :
      List String → String → String → String → List StateChange → Exec (World E) (List StateChange)
  unfolding mark_terminated forget_instance api_changes
  write_termination instance_ids reason code message changes w =
      let now = x.now w.exe in
      let why = if reason == "" then user_initiated_reason o now else reason in
      (each (mark_terminated why code message now) changes
          >> (each (forget_instance code) instance_ids >> pure (api_changes changes)))
        w

  -- terminateInstancesWithStateReason
  unfoldable pub terminate_with_state_reason :
      List String → String → String → String → Bool → Exec (World E) (List StateChange)
  unfolding write_termination
  terminate_with_state_reason instance_ids reason code message force = do
    ids ← lift (executor_instance_ids instance_ids)
    changes ← terminate_instances x o ids force
    cleanup_volumes x instance_ids
    write_termination instance_ids reason code message changes

  unfoldable pub dispatch_terminate_instances : EndRequest → Exec (World E) (List StateChange)
  unfolding terminate_with_state_reason
  dispatch_terminate_instances r = do
    fail_if r.dry_run Error.dry_run
    terminate_with_state_reason r.instance_ids "" user_initiated user_initiated_message r.force

  -- The answer says whether the endpoint is enabled.
  unfoldable pub dispatch_modify_instance_metadata_options : MetadataRequest → Exec (World E) Bool
  unfolding requested_endpoint
  dispatch_modify_instance_metadata_options r = do
    fail_if r.dry_run Error.dry_run
    i ← reads (λ (w : World E). find_instance r.instance_id w.storage)
    c ← lift (runtime_id r.instance_id)
    current ← gets (λ (w : World E). enabled (imds_of w) c)
    endpoint ← lift (requested_endpoint r.http_endpoint current)
    in_imds (set_enabled c endpoint)
    pure endpoint
