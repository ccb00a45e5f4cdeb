-- ===== src/Instances/Handlers/Reset.antt =====
-- What the metadata service and the jobs still know of an instance that
-- terminateInstancesWithStateReason of pkg/dc2/dispatcher_instance.go has ended.
use dc.Prelude.{
  String, ◌≡◌, refl, sym, ◌∙◌, Bool, true, none, List, [], arith, ◌==◌, eq_refl, inl, inr,
  Option-cases, All, if◌then◌else◌,
}
use mathlib.Core.Path.{subst}
use dc.Api.{Result, ok, Result-cases}
use dc.Api.Exec
use dc.Api.Exec.{pure, bind-post, then-post, lift, gets, lift, Exec, bind-ok, then-ok}
use dc.Storage.{lookup, delete}
use dc.Storage.Maps.{lookup-delete}
use dc.Imds.{
  Imds, enabled, set_enabled, revoke_tokens, set_tags, clear_spot_instance_action, tags,
  spot_action,
}
use dc.Imds.Tokens.{NoTokens, without_tokens_of-NoTokens, without_tokens_of-keeps}
use dc.Spot.Schedule.{Jobs, cancel_spot_reclaim}
use dc.Spot.Schedule.Registry.{cancel_spot_reclaim-lookup}
use dc.Spot.Schedule.Notices.{same_actions}
use dc.Volumes.Lifecycle.{cleanup_volumes}
use dc.Executor.{Executor, World, StateChange, runtime_id, executor_instance_ids, imds_of, each}
use dc.Executor.Loops.{each-makes}
use dc.Instances.Lifecycle.{Settings, terminate_instances}
use dc.Instances.Handlers.{
  user_initiated_reason, write_termination, reset_imds, forget_instance, mark_terminated,
  write_termination, user_initiated_reason, terminate_with_state_reason, api_changes,
}

-- The metadata service has nothing of the container but that its endpoint is enabled.
pub record IsReset (c : String) (m : Imds) : Type 0 where
  pub endpoint : enabled m c ≡ true
  pub no_tokens : NoTokens c m.tokens
  pub no_tags : tags m c ≡ []
  pub no_notice : spot_action m c ≡ none

reset_imds-IsReset : (c : String) (m : Imds) → IsReset c (reset_imds c m)
unfolding set_tags revoke_tokens set_enabled clear_spot_instance_action enabled tags spot_action
reset_imds-IsReset c m =
    let gone : lookup c (delete c m.instance_tags) ≡ none =
      rw (lookup-delete c c m.instance_tags, eq_refl c) refl in
    record {
      endpoint = rw (lookup-delete c c m.disabled_instances, eq_refl c) refl;
      no_tokens = without_tokens_of-NoTokens c m.tokens;
      no_tags = rw (gone, tags) refl;
      no_notice = rw (lookup-delete c c m.spot_actions, eq_refl c) refl;
    }

reset_imds-keeps : (c d : String) (m : Imds) → IsReset c m → IsReset c (reset_imds d m)
unfolding set_tags revoke_tokens set_enabled clear_spot_instance_action enabled tags spot_action
reset_imds-keeps c d m v = record {
  endpoint = ground (arith, lookup-delete d c m.disabled_instances, v.endpoint);
  no_tokens = without_tokens_of-keeps c d m.tokens v.no_tokens;
  no_tags = ground (arith, lookup-delete d c m.instance_tags, v.no_tags);
  no_notice = ground (arith, lookup-delete d c m.spot_actions, v.no_notice);
}

-- The instance has neither a reclaim that can be cancelled nor anything in the metadata service.
pub record IsForgotten {E : Type 0} (id : String) (w : World E) : Type 0 where
  pub no_reclaim : lookup id w.spot.cancels ≡ none
  pub reset : (c : String) → runtime_id id ≡ ok c → IsReset c (imds_of w)

cancel-keeps :
    (id j : String) (s : Jobs)
    → lookup id s.cancels ≡ none
    → lookup id (cancel_spot_reclaim j s).cancels ≡ none
unfolding cancel_spot_reclaim
cancel-keeps id j s h = elim (Option-cases (lookup j s.cancels)) [
  | inl e ↦ rw (e, cancel_spot_reclaim) h
  | inr (n, e) ↦ rw (e, cancel_spot_reclaim) (ground (arith, lookup-delete j id s.cancels, h))
]

module _ {E : Type 0} (x : Executor E) (o : Settings) (code : String) where
  -- The jobs and the metadata service after the turn for an instance.
  forget-keeps :
      (id j : String) (w : World E)
      → IsForgotten j w
      → IsForgotten j (forget_instance x o code id w).0
  unfolding forget_instance
  forget-keeps id j w v = elim (Result-cases (runtime_id id)) [
    | inl (e, p) ↦
        rw (p, forget_instance)
          (record {
            no_reclaim = cancel-keeps j id w.spot v.no_reclaim;
            reset = λ c q. subst (IsReset c) (sym (same_actions id w.spot)) (v.reset c q);
          })
    | inr (d, p) ↦
        rw (p, forget_instance)
          (record {
            no_reclaim = cancel-keeps j id w.spot v.no_reclaim;
            reset = λ c q.
                reset_imds-keeps c d (cancel_spot_reclaim id w.spot).imds
                  (subst (IsReset c) (sym (same_actions id w.spot)) (v.reset c q));
          })
  ]

  forget-IsForgotten :
      (id : String) (w : World E)
      → (forget_instance x o code id w).1 ≡ ok tt
      → IsForgotten id (forget_instance x o code id w).0
  unfolding forget_instance
  forget-IsForgotten id w h = elim (Result-cases (runtime_id id)) [
    | inl (e, p) ↦ absurd (ground (arith, h, p))
    | inr (d, p) ↦
        rw (p, forget_instance)
          (record {
            no_reclaim = cancel_spot_reclaim-lookup id w.spot;
            reset = λ c q.
                let eq : ◌≡◌ {A = Result String} (ok d) (ok c) = sym p ∙ q in
                let same : d ≡ c = ground (arith, eq) in
                subst
                  (λ (y : String). IsReset y (reset_imds d (cancel_spot_reclaim id w.spot).imds))
                  same (reset_imds-IsReset d (cancel_spot_reclaim id w.spot).imds);
          })
  ]

write_termination-IsForgotten :
    {E : Type 0} (x : Executor E) (o : Settings) (instance_ids : List String)
    (reason code message : String) (cs changes : List StateChange) (w : World E)
    → (write_termination x o instance_ids reason code message cs w).1 ≡ ok changes
    → All
        (λ id. IsForgotten id (write_termination x o instance_ids reason code message cs w).0)
        instance_ids
unfolding write_termination
write_termination-IsForgotten {E} x o instance_ids reason code message cs changes w =
    let Done : World E × Result (List StateChange) → Type 0 =
      λ out. All (λ id. IsForgotten id out.0) instance_ids in
    let now = x.now w.exe in
    let why = if reason == "" then user_initiated_reason o now else reason in
    let loop = each (forget_instance x o code) instance_ids in
    let last : Exec (World E) (List StateChange) = pure (api_changes cs) in
    let marked = (each (mark_terminated x o why code message now) cs w).0 in
    then-post Done (each (mark_terminated x o why code message now) cs) (Exec.◌>>◌ loop last) w
      changes
      λ _. then-post Done loop last marked changes λ p _.
        each-makes (forget_instance x o code) IsForgotten (λ a b. forget-keeps x o code a b)
          (forget-IsForgotten x o code) instance_ids marked p

-- When terminating instances succeeds, each of them that the request names has no cancel function of
-- a reclaim left, and the metadata service has no token, tag or notice of it and its endpoint is
-- enabled again.
pub terminate_with_state_reason-IsForgotten :
    {E : Type 0} (x : Executor E) (o : Settings) (instance_ids : List String)
    (reason code message : String) (force : Bool) (w : World E) (changes : List StateChange)
    → (terminate_with_state_reason x o instance_ids reason code message force w).1 ≡ ok changes
    → All
        (λ id.
          IsForgotten id
            (terminate_with_state_reason x o instance_ids reason code message force w).0)
        instance_ids
unfolding terminate_with_state_reason
terminate_with_state_reason-IsForgotten {E} x o instance_ids reason code message force w changes =
    let Done : World E × Result (List StateChange) → Type 0 =
      λ out. All (λ id. IsForgotten id out.0) instance_ids in
    bind-post Done (lift (executor_instance_ids instance_ids)) _ w changes λ ids.
      bind-post Done (terminate_instances x o ids force) _ _ changes λ cs.
        then-post Done (cleanup_volumes x instance_ids) _ _ changes
          λ _. write_termination-IsForgotten x o instance_ids reason code message cs changes _
