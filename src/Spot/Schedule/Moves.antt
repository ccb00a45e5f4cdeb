-- ===== src/Spot/Schedule/Moves.antt =====
-- The moves of a job of pkg/dc2/dispatcher_spot.go, one by one.
use dc.Prelude.{
  ℕ, suc, String, Bool, Option, none, some, ◌∷◌, ◌≡◌, ◌∙◌, sym, ap, refl, leb, inl, inr,
  if◌then◌else◌, arith, Option-cases, Bool-cases, ◌≤◌,
}
use mathlib.Core.Path.{subst}
use dc.Prelude.Int.{leb_ℤ, pos}
use dc.Storage.{insert}
use dc.Imds.{Imds, set_spot_instance_action, clear_spot_instance_action}
use dc.Dispatcher.{executor_instance_id}
use dc.Spot.{terminate}
use dc.Spot.Plan.{ReclaimPlan}
use dc.Spot.Schedule.{
  Phase, noticing, reclaiming, clearing, deregistering, over, Jobs, write_job, cancel_existing,
  new_job, schedule_spot_reclaim, cancel_spot_reclaim, in_phase, has_notice, go_on, leave_wait,
  give_up,
}

abbrev pub with_imds : Imds → Jobs → Jobs
with_imds m s = record s { imds = m }

abbrev pub warned : ℕ → Jobs → Jobs
warned n s =
    with_imds
      (set_spot_instance_action (s.jobs n).runtime_id terminate (s.jobs n).reclaim_at s.imds) s

abbrev pub unwarned : ℕ → Jobs → Jobs
unwarned n s = with_imds (clear_spot_instance_action (s.jobs n).runtime_id s.imds) s

abbrev pub reclaimed : ℕ → Jobs → Jobs
reclaimed n s = record s { reclaims = record { job = n; time = s.now } ∷ s.reclaims }

-- A move of a job that is not kept waiting.
pub data Going (n : ℕ) (s t : Jobs) : Type 0 where
  passes_notice : (s.jobs n).phase ≡ noticing → t ≡ in_phase reclaiming n s → Going n s t
  shows_notice :
      (s.jobs n).phase ≡ noticing
      → (s.jobs n).warn_at ≤ s.now
      → t ≡ in_phase reclaiming n (warned n s)
      → Going n s t
  reclaims :
      (s.jobs n).phase ≡ reclaiming
      → (s.jobs n).reclaim_at ≤ s.now
      → t ≡ in_phase clearing n (reclaimed n s)
      → Going n s t
  clears : (s.jobs n).phase ≡ clearing → t ≡ in_phase deregistering n (unwarned n s) → Going n s t
  deregisters :
      (s.jobs n).phase ≡ deregistering
      → t ≡ in_phase over n (cancel_spot_reclaim (s.jobs n).instance_id s)
      → Going n s t

some_inj : {A : Type 0} → (x y : A) → some x ≡ some y → y ≡ x
some_inj {A = A} x y h = sym (ap (λ (o : Option A). elim o [ none ↦ x | some z ↦ z ]) h)

pub go_on-Going : (n : ℕ) (s t : Jobs) → go_on n s ≡ some t → Going n s t
unfolding go_on
go_on-Going n s t h = go (s.jobs n).phase refl
  where
    go : (p : Phase) → (s.jobs n).phase ≡ p → Going n s t
    go noticing e = elim (Bool-cases (has_notice (s.jobs n))) [
      | inr f ↦ passes_notice e (some_inj _ t (sym (rw (e, f, go_on) refl) ∙ h))
      | inl f ↦ elim (Bool-cases (leb (s.jobs n).warn_at s.now)) [
        | inl g ↦
            shows_notice e (ground (arith, g)) (some_inj _ t (sym (rw (e, f, g, go_on) refl) ∙ h))
        | inr g ↦ absurd (ground (arith, h, e, f, g))
      ]
    ]
    go reclaiming e = elim (Bool-cases (leb (s.jobs n).reclaim_at s.now)) [
      | inl g ↦ reclaims e (ground (arith, g)) (some_inj _ t (sym (rw (e, g, go_on) refl) ∙ h))
      | inr g ↦ absurd (ground (arith, h, e, g))
    ]
    go clearing e = clears e (some_inj _ t (sym (rw (e, go_on) refl) ∙ h))
    go deregistering e = deregisters e (some_inj _ t (sym (rw (e, go_on) refl) ∙ h))
    go over e = absurd (ground (arith, h, e))

-- A job that gives up waits, for its notice or for its reclaim.
pub data IsWaiting (p : Phase) : Type 0 where
  for_notice : p ≡ noticing → IsWaiting p
  for_reclaim : p ≡ reclaiming → IsWaiting p

leave_wait-clearing :
    (n : ℕ) (s t : Jobs)
    → leave_wait n s ≡ some t
    → IsWaiting (s.jobs n).phase × (t ≡ in_phase clearing n s)
unfolding leave_wait
leave_wait-clearing n s t h = go (s.jobs n).phase refl
  where
    go :
        (p : Phase)
        → (s.jobs n).phase ≡ p
        → IsWaiting (s.jobs n).phase × (t ≡ in_phase clearing n s)
    go noticing e = elim (Bool-cases (has_notice (s.jobs n))) [
      | inl f ↦ (for_notice e, some_inj _ t (sym (rw (e, f, leave_wait) refl) ∙ h))
      | inr f ↦ absurd (ground (arith, h, e, f))
    ]
    go reclaiming e = (for_reclaim e, some_inj _ t (sym (rw (e, leave_wait) refl) ∙ h))
    go clearing e = absurd (ground (arith, h, e))
    go deregistering e = absurd (ground (arith, h, e))
    go over e = absurd (ground (arith, h, e))

pub give_up-clearing :
    (n : ℕ) (s t : Jobs)
    → give_up n s ≡ some t
    → IsWaiting (s.jobs n).phase × (t ≡ in_phase clearing n s)
unfolding give_up
give_up-clearing n s t h = elim (Bool-cases (s.jobs n).cancelled) [
  | inr c ↦ absurd (ground (arith, h, c))
  | inl c ↦
      leave_wait-clearing n s t
        (subst (λ (b : Bool). (if b then leave_wait n s else none) ≡ some t) c h)
]

abbrev pub scheduled : String → String → ReclaimPlan → Jobs → Jobs
scheduled id runtime plan s = record s {
  next = suc s.next;
  jobs = write_job s.next (new_job id runtime plan s.now) (cancel_existing id s);
  cancels = insert id s.next s.cancels;
}

-- A call of scheduleSpotReclaim that returns has nothing to do or starts a job.
pub data Scheduling (id : String) (plan : ReclaimPlan) (s t : Jobs) : Type 0 where
  nothing : t ≡ s → Scheduling id plan s t
  starts_job :
      (runtime : String)
      → executor_instance_id id ≡ some runtime
      → t ≡ scheduled id runtime plan s
      → Scheduling id plan s t

pub schedule_spot_reclaim-Scheduling :
    (id : String) (plan : ReclaimPlan) (s t : Jobs)
    → schedule_spot_reclaim id plan s ≡ some t
    → Scheduling id plan s t
unfolding schedule_spot_reclaim
schedule_spot_reclaim-Scheduling id plan s t h = elim (Bool-cases (leb_ℤ plan.after (pos 0))) [
  | inl e ↦ nothing (some_inj _ t (sym (rw (e, schedule_spot_reclaim) refl) ∙ h))
  | inr e ↦ elim (Option-cases (executor_instance_id id)) [
    | inl f ↦ absurd (ground (arith, h, e, f))
    | inr (r, f) ↦ starts_job r f (some_inj _ t (sym (rw (e, f, schedule_spot_reclaim) refl) ∙ h))
  ]
]
