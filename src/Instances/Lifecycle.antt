-- ===== src/Instances/Lifecycle.antt =====
-- pkg/dc2/dispatcher_instance.go: the delays that a test profile asks for around the calls of the
-- executor. The profile is taken not to change while a handler waits.
pub mod Keeps
use dc.Prelude.{String, Bool, Option, none, some, List, [], ◌∷◌, map, ◌==◌, if◌then◌else◌, is_empty}
use dc.Prelude.Int.{ℤ, pos, ltb_ℤ, leb_ℤ}
use dc.Api.{ok, err, is_not_found, wrapped}
use dc.Api.Exec.{Exec, pure, lift, ◌>>=◌, ◌>>◌}
use dc.Storage.{Attributes, resource_attributes, key_or_empty}
use dc.Dispatcher.Names
use dc.TestProfile.{Profile, Hook, before, after, Phase, MatchInput, delay}
use dc.TestProfile
use dc.Spot.{on_demand}
use dc.Spot.Plan.{ReclaimPlan}
use dc.AutoScaling.Names as GroupNames
use dc.Executor.{
  Executor, World, Description, StateChange, in_exe, api_instance_id, executor_instance_ids,
}

-- The settings of the Dispatcher that the handlers read, the virtual CPUs and the memory that the
-- catalog gives for an instance type, and the text of a time in the reason of a transition.
pub record Settings : Type 0 where
  pub region : String
  pub profile : Option Profile
  pub reclaim : ReclaimPlan
  pub vcpus : String → Option ℤ
  pub memory : String → Option ℤ
  pub gmt : String → String
  pub is_time : String → Bool

abbrev or_zero : Option ℤ → ℤ
or_zero none = pos 0
or_zero (some n) = n

-- runInstancesMatchInputForAutoScalingGroup
unfoldable pub match_input_for_group : Settings → String → String → MatchInput
match_input_for_group o kind group = record {
  action = "RunInstances";
  market_type = on_demand;
  instance_type = kind;
  auto_scaling_group_name = group;
  vcpu = or_zero (o.vcpus kind);
  memory_mib = or_zero (o.memory kind);
}

-- The loop of testProfileDelayForMatchInputs.
longest : Option Profile → Hook → Phase → List MatchInput → ℤ → ℤ
longest p hook phase [] most = most
longest p hook phase (i ∷ is) most =
    let d = delay p hook phase i in longest p hook phase is (if ltb_ℤ most d then d else most)

-- testProfileDelayForMatchInputs
unfoldable pub profile_delay : Option Profile → Hook → Phase → List MatchInput → ℤ
unfolding longest
profile_delay none hook phase inputs = pos 0
profile_delay (some p) hook phase inputs = longest (some p) hook phase inputs (pos 0)

-- The last description of an instance, which is what the map keeps.
unfoldable pub description_of : String → List Description → Option Description
description_of id [] = none
description_of id (d ∷ ds) = elim (description_of id ds) [
  | some e ↦ some e
  | none ↦ if api_instance_id d.id == id then some d else none
]

abbrev if_given : String → String → String
if_given value old = if value == "" then old else value

-- What lifecycleMatchInputs reads in the attributes of an instance.
unfoldable pub lifecycle_input : Settings → String → Description → Attributes → MatchInput
lifecycle_input o action d attrs =
    let input = match_input_for_group o d.instance_kind "" in
    record input {
      action = action;
      market_type = if_given (key_or_empty attrs Names.market_type) input.market_type;
      auto_scaling_group_name =
          if_given (key_or_empty attrs GroupNames.name) input.auto_scaling_group_name;
    }

module _ {E : Type 0} (x : Executor E) (o : Settings) where
  -- applyTestProfileDelayForMatchInputsInternal
  unfoldable pub apply_delay : Hook → Phase → List MatchInput → Exec (World E) (Unit {0})
  apply_delay hook phase inputs w =
      let d = profile_delay o.profile hook phase inputs in
      let (e, r) = x.wait d w.exe in
      if is_empty inputs
      then (w, ok tt)
      else if leb_ℤ d (pos 0)
      then (w, ok tt)
      else (record w { exe = e }, r)

  -- One turn of the loop of lifecycleMatchInputs.
  input_for : String → List Description → String → Exec (World E) (List MatchInput)
  input_for action ds id w = elim (description_of id ds) [
    | none ↦ (w, ok [])
    | some d ↦ elim (resource_attributes w.storage id) [
      | err e ↦
          if is_not_found e
          then (w, ok (lifecycle_input o action d [] ∷ []))
          else (w, err (wrapped e))
      | ok attrs ↦ (w, ok (lifecycle_input o action d attrs ∷ []))
    ]
  ]

  abbrev joined_to : List MatchInput → List MatchInput → List MatchInput
  joined_to [] is = is
  joined_to (j ∷ js) is = j ∷ joined_to js is

  inputs_for : String → List Description → List String → Exec (World E) (List MatchInput)
  unfolding input_for
  inputs_for action ds [] = pure []
  inputs_for action ds (id ∷ ids) = do
    i ← input_for action ds id
    is ← inputs_for action ds ids
    pure (joined_to i is)

  lifecycle_inputs : String → List String → Exec (World E) (List MatchInput)
  unfolding inputs_for
  lifecycle_inputs action [] = pure []
  lifecycle_inputs action (id ∷ ids) = do
    runtime_ids ← lift (executor_instance_ids (id ∷ ids))
    ds ← in_exe (x.describe_instances runtime_ids)
    inputs_for action ds (id ∷ ids)

  -- The common course of the three calls of the executor.
  between_delays :
      String → Phase → List String → Exec E (List StateChange) → Exec (World E) (List StateChange)
  unfolding lifecycle_inputs
  between_delays action phase ids call = do
    inputs ← lifecycle_inputs action (map api_instance_id ids)
    apply_delay before phase inputs
    changes ← in_exe call
    apply_delay after phase inputs
    pure changes

  -- stopInstancesWithProfileDelay
  unfoldable pub stop_instances : List String → Bool → Exec (World E) (List StateChange)
  unfolding between_delays
  stop_instances ids force =
      between_delays "StopInstances" TestProfile.stop ids (x.stop_instances ids force)

  -- startInstancesWithProfileDelay
  unfoldable pub start_instances : List String → Exec (World E) (List StateChange)
  unfolding between_delays
  start_instances ids =
      between_delays "StartInstances" TestProfile.start ids (x.start_instances ids)

  -- terminateInstancesWithProfileDelay
  unfoldable pub terminate_instances : List String → Bool → Exec (World E) (List StateChange)
  unfolding between_delays
  terminate_instances ids force =
      between_delays "TerminateInstances" TestProfile.terminate ids
        (x.terminate_instances ids force)
