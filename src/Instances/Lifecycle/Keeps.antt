-- ===== src/Instances/Lifecycle/Keeps.antt =====
-- The calls of the executor between the delays of a profile, in pkg/dc2/dispatcher.go, leave the storage as
-- it is.
use dc.Prelude.{String, Bool, List, [], ◌∷◌, inl, inr, Bool-cases, Option-cases, map, is_empty}
use dc.Prelude.Int.{pos, leb_ℤ}
use dc.Api.{Result-cases, is_not_found}
use dc.Api.Exec.{Exec}
use dc.Storage.{Storage, resource_attributes}
use dc.TestProfile.{before, after, Hook, Phase, MatchInput}
use dc.TestProfile
use dc.Executor.{Executor, Description, StateChange, api_instance_id, executor_instance_ids}
use dc.Executor.Keeps.{Keeps, Stored, bind-Keeps, then-Keeps, pure-Keeps, lift-Keeps, in_exe-Keeps}
use dc.Instances.Lifecycle.{
  Settings, profile_delay, description_of, apply_delay, input_for, joined_to, inputs_for,
  lifecycle_inputs, between_delays, stop_instances, start_instances, terminate_instances,
}

module _ {E : Type 0} (x : Executor E) (o : Settings) (Q : Storage → Type 0) where
  pub apply_delay-Keeps :
      (hook : Hook) (phase : Phase) (inputs : List MatchInput)
      → Keeps (Stored Q) (apply_delay x o hook phase inputs)
  unfolding apply_delay
  apply_delay-Keeps hook phase inputs = record {
    run = λ w q. elim (Bool-cases (is_empty inputs)) [
      | inl e ↦ rw (e, apply_delay) q
      | inr e ↦ elim (Bool-cases (leb_ℤ (profile_delay o.profile hook phase inputs) (pos 0))) [
        | inl f ↦ rw (e, apply_delay, f) q
        | inr f ↦ rw (e, apply_delay, f) q
      ]
    ];
  }

  input_for-Keeps :
      (action : String) (ds : List Description) (id : String)
      → Keeps (Stored Q) (input_for x o action ds id)
  unfolding input_for
  input_for-Keeps action ds id = record {
    run = λ w q. elim (Option-cases (description_of id ds)) [
      | inl e ↦ rw (e, input_for) q
      | inr (d, e) ↦ elim (Result-cases (resource_attributes w.storage id)) [
        | inl (f, p) ↦ elim (Bool-cases (is_not_found f)) [
          | inl b ↦ rw (e, p, b, input_for) q
          | inr b ↦ rw (e, p, b, input_for) q
        ]
        | inr (attrs, p) ↦ rw (e, p, input_for) q
      ]
    ];
  }

  inputs_for-Keeps :
      (action : String) (ds : List Description) (ids : List String)
      → Keeps (Stored Q) (inputs_for x o action ds ids)
  unfolding inputs_for
  inputs_for-Keeps action ds [] = pure-Keeps []
  inputs_for-Keeps action ds (id ∷ ids) =
      bind-Keeps (input_for-Keeps action ds id)
        λ i. bind-Keeps (inputs_for-Keeps action ds ids) λ is. pure-Keeps (joined_to x o i is)

  lifecycle_inputs-Keeps :
      (action : String) (ids : List String) → Keeps (Stored Q) (lifecycle_inputs x o action ids)
  unfolding lifecycle_inputs
  lifecycle_inputs-Keeps action [] = pure-Keeps []
  lifecycle_inputs-Keeps action (id ∷ ids) =
      bind-Keeps (lift-Keeps (executor_instance_ids (id ∷ ids))) λ runtime_ids.
        bind-Keeps (in_exe-Keeps Q (x.describe_instances runtime_ids))
          λ ds. inputs_for-Keeps action ds (id ∷ ids)

  between_delays-Keeps :
      (action : String) (phase : Phase) (ids : List String) (call : Exec E (List StateChange))
      → Keeps (Stored Q) (between_delays x o action phase ids call)
  unfolding between_delays
  between_delays-Keeps action phase ids call =
      bind-Keeps (lifecycle_inputs-Keeps action (map api_instance_id ids)) λ inputs.
        then-Keeps (apply_delay-Keeps before phase inputs) (
          bind-Keeps (in_exe-Keeps Q call)
            λ changes. then-Keeps (apply_delay-Keeps after phase inputs) (pure-Keeps changes))

  pub stop_instances-Keeps :
      (ids : List String) (force : Bool) → Keeps (Stored Q) (stop_instances x o ids force)
  unfolding stop_instances
  stop_instances-Keeps ids force =
      between_delays-Keeps "StopInstances" TestProfile.stop ids (x.stop_instances ids force)

  pub start_instances-Keeps : (ids : List String) → Keeps (Stored Q) (start_instances x o ids)
  unfolding start_instances
  start_instances-Keeps ids =
      between_delays-Keeps "StartInstances" TestProfile.start ids (x.start_instances ids)

  pub terminate_instances-Keeps :
      (ids : List String) (force : Bool) → Keeps (Stored Q) (terminate_instances x o ids force)
  unfolding terminate_instances
  terminate_instances-Keeps ids force =
      between_delays-Keeps "TerminateInstances" TestProfile.terminate ids
        (x.terminate_instances ids force)
