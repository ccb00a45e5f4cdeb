-- ===== src/Spot/Schedule/Registry.antt =====
-- Which jobs of pkg/dc2/dispatcher_spot.go are live, and which the map spotReclaimCancels knows.
use dc.Prelude.{
  ℕ, String, Bool, true, false, Option, none, some, ◌≡◌, ◌∙◌, sym, ap, refl, inl, inr, ◌==◌, arith,
  Option-cases, Bool-cases, ◌<◌, eq_iff, eq_refl,
}
use mathlib.Core.Path.{subst}
use dc.Storage.{lookup}
use dc.Storage.Maps.{lookup-insert, lookup-delete}
use dc.Spot.Plan.{ReclaimPlan}
use dc.Spot.Schedule.{
  Phase, noticing, reclaiming, clearing, deregistering, over, Job, Jobs, write_job, cancel_job,
  cancel_existing, new_job, cancel_spot_reclaim, cancel_all_spot_reclaims, in_phase,
}
use dc.Spot.Schedule.Moves.{scheduled}
use dc.Spot.Schedule.Cancels.{
  Softens, Softens-refl, is_job-cases, write_job-same, write_job-other, cancel_job-Softens,
  cancel_job-cancelled, cancel_existing-Softens, cancel_existing-cancelled, cancel_each-Softens,
  cancel_each-cancelled,
}

abbrev pub runs : Phase → Bool
runs noticing = true
runs reclaiming = true
runs clearing = true
runs deregistering = true
runs over = false

-- A job that runs and that nobody has cancelled.
pub record IsLive (j : Job) : Type 0 where
  pub running : runs j.phase ≡ true
  pub wanted : j.cancelled ≡ false

-- A live job has the entry of its instance in the map, and an entry is of a job of the instance that
-- runs.
pub record IsRegistered (s : Jobs) : Type 0 where
  pub fresh : (k : ℕ) → runs (s.jobs k).phase ≡ true → k < s.next
  pub live : (k : ℕ) → IsLive (s.jobs k) → lookup (s.jobs k).instance_id s.cancels ≡ some k
  pub known :
      (id : String) (k : ℕ)
      → lookup id s.cancels ≡ some k
      → ((s.jobs k).instance_id ≡ id) × (runs (s.jobs k).phase ≡ true)

softer-IsLive : (i j : Job) → Softens i j → IsLive j → IsLive i
softer-IsLive i j f v = record {
  running = ap (λ (x : Job). runs x.phase) (sym f.same) ∙ v.running;
  wanted = elim (Bool-cases i.cancelled) [
    | inl e ↦ absurd (ground (arith, f.stays e, v.wanted))
    | inr e ↦ e
  ];
}

softer-instance : (i j : Job) → Softens i j → j.instance_id ≡ i.instance_id
softer-instance i j f = ap (λ (x : Job). x.instance_id) f.same

softer-runs : (i j : Job) → Softens i j → runs j.phase ≡ runs i.phase
softer-runs i j f = ap (λ (x : Job). runs x.phase) f.same

-- A job that moves on without ending keeps the registry.
pub in_phase-IsRegistered :
    (p : Phase) (n : ℕ) (s : Jobs)
    → runs p ≡ true
    → runs (s.jobs n).phase ≡ true
    → IsRegistered s
    → IsRegistered (in_phase p n s)
in_phase-IsRegistered p n s r h v = record {
  fresh = λ k. elim (is_job-cases k n) [
    | inl (e, q) ↦ rw (e, q) (λ x. v.fresh n h)
    | inr (e, q) ↦ rw e (v.fresh k)
  ];
  live = λ k. elim (is_job-cases k n) [
    | inl (e, q) ↦ rw (e, q) (λ x. v.live n (record { running = h; wanted = x.wanted }))
    | inr (e, q) ↦ rw e (v.live k)
  ];
  known = λ id k e. elim (is_job-cases k n) [
    | inl (f, q) ↦ rw f ((v.known id n (subst (λ (x : ℕ). lookup id s.cancels ≡ some x) q e)).0, r)
    | inr (f, q) ↦ rw f (v.known id k e)
  ];
}

-- What only concerns the time, the metadata service and the record of the reclaims.
pub with_rest-IsRegistered :
    (s t : Jobs)
    → t.jobs ≡ s.jobs
    → t.next ≡ s.next
    → t.cancels ≡ s.cancels
    → IsRegistered s
    → IsRegistered t
with_rest-IsRegistered s t a b c v = record {
  fresh = λ k. rw (a, b) (v.fresh k);
  live = λ k. rw (a, c) (v.live k);
  known = λ id k. rw (a, c) (v.known id k);
}

pub cancel-IsRegistered :
    (id : String) (s : Jobs) → IsRegistered s → IsRegistered (cancel_spot_reclaim id s)
unfolding cancel_spot_reclaim
cancel-IsRegistered id s v = elim (Option-cases (lookup id s.cancels)) [
  | inl e ↦ rw (e, cancel_spot_reclaim) v
  | inr (n, e) ↦
      rw (e, cancel_spot_reclaim)
        (record {
          fresh = λ k r. v.fresh k (sym (softer-runs _ _ (cancel_job-Softens n k s.jobs)) ∙ r);
          live = λ k w.
              let f = cancel_job-Softens n k s.jobs in
              let p = v.live k (softer-IsLive _ _ f w) in
              rw (softer-instance _ _ f) (
                lookup-delete id (s.jobs k).instance_id s.cancels
                ∙ elim (Bool-cases (id == (s.jobs k).instance_id)) [
                  | inr q ↦ rw q p
                  | inl q ↦
                      let same : lookup (s.jobs k).instance_id s.cancels ≡ some n =
                        subst (λ (x : String). lookup x s.cancels ≡ some n) ((eq_iff id _).0 q) e in
                      let eq : ◌≡◌ {A = Option ℕ} (some k) (some n) = sym p ∙ same in
                      let kn : n ≡ k = ground (arith, eq) in
                      absurd (
                        ground (
                          arith,
                          w.wanted,
                          subst (λ (x : ℕ). (cancel_job n s.jobs x).cancelled ≡ true) kn
                              (cancel_job-cancelled n s.jobs),
                        ))
                ]);
          known = λ i k q.
              let f = cancel_job-Softens n k s.jobs in
              let (a, b) = v.known i k (ground (arith, q, lookup-delete id i s.cancels)) in
              (softer-instance _ _ f ∙ a, softer-runs _ _ f ∙ b);
        })
]

pub cancel_all-IsRegistered :
    (s : Jobs) → IsRegistered s → IsRegistered (cancel_all_spot_reclaims s)
unfolding cancel_all_spot_reclaims lookup
cancel_all-IsRegistered s v = record {
  fresh = λ k r. v.fresh k (sym (softer-runs _ _ (cancel_each-Softens s.cancels s.jobs k)) ∙ r);
  live = λ k w.
      let f = cancel_each-Softens s.cancels s.jobs k in
      absurd (
        ground (
          arith,
          w.wanted,
          cancel_each-cancelled s.cancels s.jobs (s.jobs k).instance_id k
              (v.live k (softer-IsLive _ _ f w)),
        ));
  known = λ i k q. absurd (ground (arith, q));
}

pub scheduled-IsRegistered :
    (id runtime : String) (plan : ReclaimPlan) (s : Jobs)
    → IsRegistered s
    → IsRegistered (scheduled id runtime plan s)
unfolding new_job
scheduled-IsRegistered id runtime plan s v = record {
  fresh = λ k. elim (is_job-cases k s.next) [
    | inl (e, q) ↦ λ r. ground (arith, q)
    | inr (e, q) ↦ rw e (λ r.
        let old = v.fresh k (sym (softer-runs _ _ (cancel_existing-Softens id s k)) ∙ r) in
        ground (arith, old))
  ];
  live = λ k. elim (is_job-cases k s.next) [
    | inl (e, q) ↦ rw e (λ w. lookup-insert id id s.next s.cancels ∙ ground (arith, eq_refl id, q))
    | inr (e, q) ↦ rw e (λ w.
        let f = cancel_existing-Softens id s k in
        let p = v.live k (softer-IsLive _ _ f w) in
        rw (softer-instance _ _ f) (
          lookup-insert id (s.jobs k).instance_id s.next s.cancels
          ∙ elim (Bool-cases (id == (s.jobs k).instance_id)) [
            | inr x ↦ rw x p
            | inl x ↦
                let same : lookup id s.cancels ≡ some k =
                  subst (λ (y : String). lookup y s.cancels ≡ some k) (sym ((eq_iff id _).0 x)) p in
                absurd (ground (arith, w.wanted, cancel_existing-cancelled id s k same))
          ]))
  ];
  known = λ i k q. elim (Bool-cases (id == i)) [
    | inl e ↦
        let kn : s.next ≡ k = ground (arith, q, lookup-insert id i s.next s.cancels, e) in
        subst
          (λ (x : ℕ).
            ((write_job s.next (new_job id runtime plan s.now) (cancel_existing id s) x).instance_id
              ≡ i)
            × (runs
                  (write_job s.next (new_job id runtime plan s.now) (cancel_existing id s) x).phase
                ≡ true))
          kn
          (rw (write_job-same s.next (new_job id runtime plan s.now) (cancel_existing id s))
            ((eq_iff id i).0 e, refl))
    | inr e ↦
        let old : lookup i s.cancels ≡ some k =
          ground (arith, q, lookup-insert id i s.next s.cancels, e) in
        let (a, b) = v.known i k old in
        let f = cancel_existing-Softens id s k in
        rw
          (write_job-other s.next k (new_job id runtime plan s.now) (cancel_existing id s)
            (λ x. ground (arith, x, v.fresh k b)))
          (softer-instance _ _ f ∙ a, softer-runs _ _ f ∙ b)
  ];
}

-- The last deferred call of a job takes the entry of its instance away.
pub over-IsRegistered :
    (n : ℕ) (s : Jobs)
    → lookup (s.jobs n).instance_id s.cancels ≡ none
    → IsRegistered s
    → IsRegistered (in_phase over n s)
over-IsRegistered n s h v = record {
  fresh = λ k. elim (is_job-cases k n) [
    | inl (e, q) ↦ rw e (λ r. ground (arith, r))
    | inr (e, q) ↦ rw e (v.fresh k)
  ];
  live = λ k. elim (is_job-cases k n) [
    | inl (e, q) ↦ rw e (λ w. ground (arith, w.running))
    | inr (e, q) ↦ rw e (v.live k)
  ];
  known = λ id k e. elim (is_job-cases k n) [
    | inl (f, q) ↦
        let p : lookup id s.cancels ≡ some n =
          subst (λ (x : ℕ). lookup id s.cancels ≡ some x) q e in
        let gone = subst (λ (x : String). lookup x s.cancels ≡ none) (v.known id n p).0 h in
        absurd (ground (arith, p, gone))
    | inr (f, q) ↦ rw f (v.known id k e)
  ];
}

-- A call of cancelSpotReclaim leaves no entry and changes only contexts.
pub cancel_spot_reclaim-lookup :
    (id : String) (s : Jobs) → lookup id (cancel_spot_reclaim id s).cancels ≡ none
unfolding cancel_spot_reclaim
cancel_spot_reclaim-lookup id s = elim (Option-cases (lookup id s.cancels)) [
  | inl e ↦ rw (e, cancel_spot_reclaim) e
  | inr (n, e) ↦
      rw (e, cancel_spot_reclaim) (lookup-delete id id s.cancels ∙ ground (arith, eq_refl id))
]

pub cancel_spot_reclaim-Softens :
    (id : String) (s : Jobs) (k : ℕ) → Softens (s.jobs k) ((cancel_spot_reclaim id s).jobs k)
unfolding cancel_spot_reclaim
cancel_spot_reclaim-Softens id s k = elim (Option-cases (lookup id s.cancels)) [
  | inl e ↦ rw (e, cancel_spot_reclaim) (Softens-refl (s.jobs k))
  | inr (n, e) ↦ rw (e, cancel_spot_reclaim) (cancel_job-Softens n k s.jobs)
]
