-- ===== src/Spot/Schedule/Shown.antt =====
-- Which jobs of pkg/dc2/dispatcher_spot.go show the notice that a container has.
use dc.Prelude.{ℕ, String, Bool, true, false, some, ◌≡◌, ◌∙◌, sym, ap, refl, ◌≤◌, arith, inl, inr}
use mathlib.Core.Path.{subst}
use dc.Imds.{SpotAction, spot_action}
use dc.Spot.Schedule.{
  ReclaimPlan, Phase, noticing, reclaiming, clearing, deregistering, over, Job, Jobs, in_phase,
  new_job, cancel_existing,
}
use dc.Spot.Schedule.Cancels.{Softens, is_job-cases, write_job-other, cancel_existing-Softens}
use dc.Spot.Schedule.Moves.{scheduled}
use dc.Spot.Schedule.Registry.{runs, IsRegistered}

-- The phases between the notice and its removal.
abbrev pub shows : Phase → Bool
shows noticing = false
shows reclaiming = true
shows clearing = true
shows deregistering = false
shows over = false

-- The notice of a container is that of a job in those phases, which is due.
pub record Shown (r : String) (a : SpotAction) (s : Jobs) : Type 0 where
  pub job : ℕ
  pub showing : shows (s.jobs job).phase ≡ true
  pub runtime : (s.jobs job).runtime_id ≡ r
  pub time : a.termination_time ≡ (s.jobs job).reclaim_at
  pub due : (s.jobs job).warn_at ≤ s.now

abbrev pub HasNotices : Jobs → Type 0
HasNotices s = (r : String) (a : SpotAction) → spot_action s.imds r ≡ some a → Shown r a s

showing-runs : (p : Phase) → shows p ≡ true → runs p ≡ true
showing-runs noticing h = refl
showing-runs reclaiming h = refl
showing-runs clearing h = refl
showing-runs deregistering h = refl
showing-runs over h = ground (arith, h)

pub in_phase-Shown :
    (p : Phase) (n : ℕ) (s : Jobs) (r : String) (a : SpotAction)
    → (v : Shown r a s) → (v.job ≡ n → shows p ≡ true)
    → Shown r a (in_phase p n s)
in_phase-Shown p n s r a v h = elim (is_job-cases v.job n) [
  | inl (e, q) ↦ record {
    job = v.job;
    showing = rw e (h q);
    runtime = rw e (ap (λ (x : ℕ). (s.jobs x).runtime_id) (sym q) ∙ v.runtime);
    time = rw e (v.time ∙ ap (λ (x : ℕ). (s.jobs x).reclaim_at) q);
    due = rw e (subst (λ (x : ℕ). (s.jobs x).warn_at ≤ s.now) q v.due);
  }
  | inr (e, q) ↦ record {
    job = v.job;
    showing = rw e v.showing;
    runtime = rw e v.runtime;
    time = rw e v.time;
    due = rw e v.due;
  }
]

-- Contexts and later times do not matter to a notice that is shown.
pub softer-Shown :
    (s t : Jobs) (r : String) (a : SpotAction)
    → ((k : ℕ) → Softens (s.jobs k) (t.jobs k))
    → s.now ≤ t.now
    → Shown r a s
    → Shown r a t
softer-Shown s t r a f l v =
    let same = (f v.job).same in
    record {
      job = v.job;
      showing = ap (λ (j : Job). shows j.phase) same ∙ v.showing;
      runtime = ap (λ (j : Job). j.runtime_id) same ∙ v.runtime;
      time = v.time ∙ sym (ap (λ (j : Job). j.reclaim_at) same);
      due =
          subst (λ (x : ℕ). x ≤ t.now) (sym (ap (λ (j : Job). j.warn_at) same))
            (ground (arith, l, v.due));
    }

pub scheduled-Shown :
    (id runtime : String) (plan : ReclaimPlan) (s : Jobs) (r : String) (a : SpotAction)
    → IsRegistered s
    → Shown r a s
    → Shown r a (scheduled id runtime plan s)
scheduled-Shown id runtime plan s r a i v =
    let old = i.fresh v.job (showing-runs (s.jobs v.job).phase v.showing) in
    let same =
      write_job-other s.next v.job (new_job id runtime plan s.now) (cancel_existing id s)
        (λ e. ground (arith, e, old))
      ∙ (cancel_existing-Softens id s v.job).same in
    record {
      job = v.job;
      showing = ap (λ (j : Job). shows j.phase) same ∙ v.showing;
      runtime = ap (λ (j : Job). j.runtime_id) same ∙ v.runtime;
      time = v.time ∙ sym (ap (λ (j : Job). j.reclaim_at) same);
      due = subst (λ (x : ℕ). x ≤ s.now) (sym (ap (λ (j : Job). j.warn_at) same)) v.due;
    }
