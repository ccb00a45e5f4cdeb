-- ===== src/Spot/Schedule/Times.antt =====
-- When the jobs of pkg/dc2/dispatcher_spot.go reclaim, in every interleaving.
use dc.Prelude.{
  ℕ, String, Bool, true, false, List, [], ◌∷◌, ◌≡◌, ◌∙◌, sym, ap, refl, ◌≤◌, ◌<◌, arith, inl, inr,
  All,
}
use mathlib.Core.Path.{subst}
use dc.Spot.Plan.{ReclaimPlan}
use dc.Spot.Schedule.{
  Phase, noticing, reclaiming, clearing, deregistering, over, Job, Jobs, Reclaim, in_phase, new_job,
  cancel_existing,
}
use dc.Spot.Schedule.Cancels.{Softens, is_job-cases, write_job-other, cancel_existing-Softens}
use dc.Spot.Schedule.Moves.{scheduled, reclaimed}

-- The phases after the reclaim.
abbrev pub is_done : Phase → Bool
is_done noticing = false
is_done reclaiming = false
is_done clearing = true
is_done deregistering = true
is_done over = true

-- A reclaim is of a job that is done, and not before its time.
pub record IsTimely (s : Jobs) (c : Reclaim) : Type 0 where
  pub numbered : c.job < s.next
  pub done : is_done (s.jobs c.job).phase ≡ true
  pub in_time : (s.jobs c.job).reclaim_at ≤ c.time

-- No two reclaims are of the same job.
abbrev pub Once : List Reclaim → Type 0
Once [] = Unit
Once (c ∷ cs) = All (λ (d : Reclaim). ¬ (d.job ≡ c.job)) cs × Once cs

-- Each job reclaims at most once, and not before its time.
pub record InTime (s : Jobs) : Type 0 where
  pub timely : All (IsTimely s) s.reclaims
  pub once : Once s.reclaims

pub All-imp :
    {P Q : Reclaim → Type 0}
    → ((c : Reclaim) → P c → Q c)
    → (cs : List Reclaim) → All P cs
    → All Q cs
All-imp f [] a = tt
All-imp f (c ∷ cs) a = (f c a.0, All-imp f cs a.1)

-- A job that moves on is done then if it was done before.
in_phase-IsTimely :
    (p : Phase) (n : ℕ) (s : Jobs)
    → (is_done (s.jobs n).phase ≡ true → is_done p ≡ true)
    → (c : Reclaim) → IsTimely s c
    → IsTimely (in_phase p n s) c
in_phase-IsTimely p n s h c v = elim (is_job-cases c.job n) [
  | inl (e, q) ↦ record {
    numbered = v.numbered;
    done = rw e (h (subst (λ (x : ℕ). is_done (s.jobs x).phase ≡ true) q v.done));
    in_time = rw e (subst (λ (x : ℕ). (s.jobs x).reclaim_at ≤ c.time) q v.in_time);
  }
  | inr (e, q) ↦ record { numbered = v.numbered; done = rw e v.done; in_time = rw e v.in_time }
]

pub in_phase-InTime :
    (p : Phase) (n : ℕ) (s : Jobs)
    → (is_done (s.jobs n).phase ≡ true → is_done p ≡ true)
    → InTime s
    → InTime (in_phase p n s)
in_phase-InTime p n s h v = record {
  timely = All-imp (in_phase-IsTimely p n s h) s.reclaims v.timely;
  once = v.once;
}

pub softer-InTime :
    (s t : Jobs)
    → ((k : ℕ) → Softens (s.jobs k) (t.jobs k))
    → t.next ≡ s.next
    → t.reclaims ≡ s.reclaims
    → InTime s
    → InTime t
softer-InTime s t f n r v = record {
  timely = subst (All (IsTimely t)) (sym r) (
      All-imp
        (λ c w.
          let same = (f c.job).same in
          record {
            numbered = subst (λ (x : ℕ). c.job < x) (sym n) w.numbered;
            done = ap (λ (j : Job). is_done j.phase) same ∙ w.done;
            in_time =
                subst (λ (x : ℕ). x ≤ c.time) (sym (ap (λ (j : Job). j.reclaim_at) same)) w.in_time;
          })
        s.reclaims v.timely);
  once = subst Once (sym r) v.once;
}

pub scheduled-InTime :
    (id runtime : String) (plan : ReclaimPlan) (s : Jobs)
    → InTime s
    → InTime (scheduled id runtime plan s)
scheduled-InTime id runtime plan s v = record {
  timely =
      All-imp
        (λ c w.
          let same =
            write_job-other s.next c.job (new_job id runtime plan s.now) (cancel_existing id s)
              (λ e. ground (arith, e, w.numbered))
            ∙ (cancel_existing-Softens id s c.job).same in
          record {
            numbered = ground (arith, w.numbered);
            done = ap (λ (j : Job). is_done j.phase) same ∙ w.done;
            in_time =
                subst (λ (x : ℕ). x ≤ c.time) (sym (ap (λ (j : Job). j.reclaim_at) same)) w.in_time;
          })
        s.reclaims v.timely;
  once = v.once;
}

pub reclaimed-InTime :
    (n : ℕ) (s : Jobs)
    → (s.jobs n).phase ≡ reclaiming
    → (s.jobs n).reclaim_at ≤ s.now
    → n < s.next
    → InTime s
    → InTime (in_phase clearing n (reclaimed n s))
reclaimed-InTime n s e l b v = record {
  timely = (
    elim (is_job-cases n n) [
      | inl (f, q) ↦ record { numbered = b; done = rw f refl; in_time = rw f l }
      | inr (f, q) ↦ absurd (q refl)
    ],
    All-imp
        (λ c w.
          in_phase-IsTimely clearing n (reclaimed n s) (λ k. refl) c
            (record { numbered = w.numbered; done = w.done; in_time = w.in_time }))
        s.reclaims v.timely,
  );
  once = (
    All-imp
        (λ c w q.
          let done : is_done (s.jobs n).phase ≡ true =
            subst (λ (x : ℕ). is_done (s.jobs x).phase ≡ true) q w.done in
          ground (arith, done, ap is_done e))
        s.reclaims v.timely,
    v.once,
  );
}
