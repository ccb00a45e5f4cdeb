-- ===== src/Instances/Launch/Rollback.antt =====
-- dispatchRunInstances of pkg/dc2/dispatcher_instance.go: what a launch that fails leaves behind.
use dc.Prelude.{
  String, ◌≡◌, refl, sym, ap, ◌∙◌, inl, inr, true, false, Option, some, List, [], ◌∷◌, arith,
  Bool-cases, Option-cases, map,
}
use dc.Prelude.Int.{pos, leb_ℤ}
use dc.Api.{Error, err, Result-cases, is_panic}
use dc.Api.Exec
use dc.Api.Exec.{Exec, rescue, then-cases}
use dc.Storage.{instance_type}
use dc.Storage.Invariant.{IsValid}
use dc.Storage.Kinds.{kind_of}
use dc.Spot.Schedule.{schedule_spot_reclaim}
use dc.Spot.Plan.{ReclaimPlan}
use dc.TestProfile
use dc.TestProfile.{before, after}
use dc.Executor.Loops.{bind-fails, rescue-fails, each-fails}
use dc.Executor.{Executor, World, in_exe}
use dc.Instances.Lifecycle.{Settings, apply_delay}
use dc.Instances.Describe.{Instance}
use dc.Instances.Launch.Request.{RunInstances, Prepared, Outside}
use dc.Instances.Launch.{
  cleanup_failed_launch, complete_launch, prepare, dispatch_run_instances, schedule_reclaim,
  creation, launch_or_undo, schedule_reclaims,
}
use dc.Instances.Launch.Limits.{Limited, OneOf, complete_launch-Keeps, apply_delay-Keeps}
use dc.Instances.Launch.Undo.{OneOf-Limited, OneOf-All, cleanup_failed_launch-Limited}

module _ {R : Type 0} (outside : Outside R) (o : Settings) {E : Type 0} (x : Executor E) where
  undone :
      (K : String → Type 0) (ids : List String) (f : Error) (w : World E)
      → Limited K (cleanup_failed_launch outside o x ids w).0.storage
      → Limited K
          (Exec.◌>>◌
            (cleanup_failed_launch outside o x ids)
            (Exec.raise {A = List Instance} f)
            w).0.storage
  undone K ids f w k = elim (Result-cases (cleanup_failed_launch outside o x ids w).1) [
    | inl (e, p) ↦ rw p k
    | inr (u, p) ↦ rw p k
  ]

  launch_or_undo-Limited :
      (K : String → Type 0) (r : RunInstances) (p : Prepared) (answers : List (Option String))
      (ids : List String) (w : World E) (e : Error)
      → is_panic e ≡ false
      → Limited K w.storage
      → (launch_or_undo outside o x r p answers ids w).1 ≡ err e
      → Limited K (launch_or_undo outside o x r p answers ids w).0.storage
  unfolding launch_or_undo
  launch_or_undo-Limited K r p answers ids w e n l h =
      let launch = complete_launch outside o x r p answers ids in
      let launched =
        (complete_launch-Keeps outside o x (OneOf ids K) r p answers ids (OneOf-All K ids)).run w
          (OneOf-Limited K ids w.storage l) in
      rescue-fails (λ (v : World E). Limited K v.storage) launch
        (λ f. Exec.◌>>◌ (cleanup_failed_launch outside o x ids) (Exec.raise f)) w e n
        (λ f q. elim (cleanup_failed_launch-Limited outside o x K ids (launch w).0 launched) [
          | inl k ↦ undone K ids f (launch w).0 k
          | inr (g, c, u) ↦ absurd (ground (arith, q, u, c, n))
        ])
        h

  schedule_reclaim-panics :
      (plan : ReclaimPlan) (id : String) (w : World E) (e : Error)
      → (schedule_reclaim outside o x plan id w).1 ≡ err e
      → is_panic e ≡ true
  unfolding schedule_reclaim is_panic
  schedule_reclaim-panics plan id w e h =
      elim (Option-cases (schedule_spot_reclaim id plan w.spot)) [
        | inl p ↦ let same : Error.panics ≡ e = ground (arith, h, p) in ap is_panic (sym same)
        | inr (t, p) ↦ absurd (ground (arith, h, p))
      ]

  schedule_reclaims-panics :
      (plan : ReclaimPlan) (is : List Instance) (w : World E) (e : Error)
      → (schedule_reclaims outside o x plan is w).1 ≡ err e
      → is_panic e ≡ true
  unfolding schedule_reclaims is_panic
  schedule_reclaims-panics plan is w e h = elim (Bool-cases (leb_ℤ plan.after (pos 0))) [
    | inl b ↦ absurd (ground (arith, h, b))
    | inr b ↦
        each-fails (λ f. is_panic f ≡ true) (schedule_reclaim outside o x plan)
          (λ id v f q. schedule_reclaim-panics plan id v f q) (map (λ (i : Instance). i.id) is) w e
          (sym (rw (b, schedule_reclaims) refl) ∙ h)
  ]

  scheduled-fails :
      (P : World E → Type 0) (plan : ReclaimPlan) (is : List Instance) (w : World E) (e : Error)
      → is_panic e ≡ false
      → (Exec.◌>>◌ (schedule_reclaims outside o x plan is) (Exec.pure is) w).1 ≡ err e
      → P (Exec.◌>>◌ (schedule_reclaims outside o x plan is) (Exec.pure is) w).0
  scheduled-fails P plan is w e n h =
      bind-fails P (schedule_reclaims outside o x plan is) (λ u. Exec.pure is) w e
        (λ q. absurd (ground (arith, schedule_reclaims-panics plan is w e q, n)))
        (λ u p q. absurd (ground (arith, q))) h

  -- A RunInstances that fails, otherwise than by a panic, leaves no instance in the storage that was
  -- not there before: what it had registered is gone, whichever step failed.
  pub dispatch_run_instances-rolls_back :
      (answers : List (Option String)) (r : RunInstances) (w : World E) (e : Error)
      → IsValid w.storage
      → is_panic e ≡ false
      → (dispatch_run_instances outside o x answers r w).1 ≡ err e
      → (id : String)
      → kind_of (dispatch_run_instances outside o x answers r w).0.storage id ≡ some instance_type
      → kind_of w.storage id ≡ some instance_type
  unfolding dispatch_run_instances
  dispatch_run_instances-rolls_back answers r w e v n h id =
      let K : String → Type 0 = λ j. kind_of w.storage j ≡ some instance_type in
      let Held : World E → Type 0 = λ u. Limited K u.storage in
      let start : Held w = record { valid = v; within = λ j q. q } in
      (bind-fails Held (Exec.reads (λ (u : World E). prepare outside o r u.storage)) _ w e
          (λ q. start)
          (λ p q.
            let wait = apply_delay x o before TestProfile.allocate (p.input ∷ []) in
            let waited =
              (apply_delay-Keeps outside o x K before TestProfile.allocate (p.input ∷ [])).run w
                start in
            bind-fails Held wait _ w e (λ c. waited)
              (λ c d.
                let create = in_exe (x.create_instances (creation outside o r p)) in
                bind-fails Held create _ (wait w).0 e (λ g. waited)
                  (λ ids g.
                    let v = (create (wait w).0).0 in
                    bind-fails Held (launch_or_undo outside o x r p answers ids) _ v e
                      (launch_or_undo-Limited K r p answers ids v e n waited)
                      (λ is a. scheduled-fails Held p.plan is _ e n))))
          h).within
        id
