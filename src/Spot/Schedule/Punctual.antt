-- ===== src/Spot/Schedule/Punctual.antt =====
-- A job of pkg/dc2/dispatcher_spot.go reclaims at most once and not before its time.
use dc.Prelude.{ℕ, String, ◌≡◌, sym, ap, refl, ◌+◌, arith, inl, inr, Option-cases}
use mathlib.Core.Path.{subst}
use dc.Storage.{lookup}
use dc.Imds.{Imds}
use dc.Spot.Schedule.{
  reclaiming, clearing, deregistering, over, Job, Jobs, cancel_spot_reclaim,
  cancel_all_spot_reclaims, Step, schedules, cancels, cancels_all, passes, goes_on, gives_up,
  Reachable, starts, steps,
}
use dc.Spot.Schedule.Cancels.{Softens, Softens-refl, cancel_each-Softens}
use dc.Spot.Schedule.Moves.{
  Going, passes_notice, shows_notice, reclaims, clears, deregisters, go_on-Going, give_up-clearing,
  nothing, starts_job, schedule_spot_reclaim-Scheduling, warned, unwarned,
}
use dc.Spot.Schedule.Registry.{cancel_spot_reclaim-Softens, IsRegistered}
use dc.Spot.Schedule.Live.{Reachable-IsRegistered}
use dc.Spot.Schedule.Times.{
  is_done, InTime, in_phase-InTime, softer-InTime, scheduled-InTime, reclaimed-InTime,
}

-- What only concerns the time and the metadata service.
with_rest-InTime :
    (s t : Jobs) → t.jobs ≡ s.jobs → t.next ≡ s.next → t.reclaims ≡ s.reclaims → InTime s → InTime t
with_rest-InTime s t a b c v =
    softer-InTime s t
      (λ k. subst (λ (f : ℕ → Job). Softens (s.jobs k) (f k)) (sym a) (Softens-refl (s.jobs k))) b c
      v

cancel-InTime : (id : String) (s : Jobs) → InTime s → InTime (cancel_spot_reclaim id s)
unfolding cancel_spot_reclaim
cancel-InTime id s v = elim (Option-cases (lookup id s.cancels)) [
  | inl e ↦ rw (e, cancel_spot_reclaim) v
  | inr (n, e) ↦
      softer-InTime s (cancel_spot_reclaim id s) (cancel_spot_reclaim-Softens id s)
        (rw (e, cancel_spot_reclaim) refl) (rw (e, cancel_spot_reclaim) refl) v
]

Going-InTime : (n : ℕ) (s t : Jobs) → Going n s t → IsRegistered s → InTime s → InTime t
Going-InTime n s t (passes_notice e q) i v =
    subst InTime (sym q)
      (in_phase-InTime reclaiming n s (λ k. absurd (ground (arith, k, ap is_done e))) v)
Going-InTime n s t (shows_notice e l q) i v = subst InTime (sym q) (
    in_phase-InTime reclaiming n (warned n s) (λ k. absurd (ground (arith, k, ap is_done e)))
      (with_rest-InTime s (warned n s) refl refl refl v))
Going-InTime n s t (reclaims e l q) i v =
    subst InTime (sym q) (reclaimed-InTime n s e l (i.fresh n (rw e refl)) v)
Going-InTime n s t (clears e q) i v = subst InTime (sym q) (
    in_phase-InTime deregistering n (unwarned n s) (λ k. refl)
      (with_rest-InTime s (unwarned n s) refl refl refl v))
Going-InTime n s t (deregisters e q) i v = subst InTime (sym q) (
    in_phase-InTime over n (cancel_spot_reclaim (s.jobs n).instance_id s) (λ k. refl)
      (cancel-InTime (s.jobs n).instance_id s v))

Step-InTime : (s t : Jobs) → Step s t → IsRegistered s → InTime s → InTime t
unfolding cancel_all_spot_reclaims
Step-InTime s t (schedules id plan h) i v = elim (schedule_spot_reclaim-Scheduling id plan s t h) [
  | nothing q ↦ subst InTime (sym q) v
  | starts_job runtime f q ↦ subst InTime (sym q) (scheduled-InTime id runtime plan s v)
]
Step-InTime s _ (cancels id) i v = cancel-InTime id s v
Step-InTime s _ cancels_all i v =
    softer-InTime s (cancel_all_spot_reclaims s) (cancel_each-Softens s.cancels s.jobs) refl refl v
Step-InTime s _ (passes d) i v = with_rest-InTime s (record s { now = s.now + d }) refl refl refl v
Step-InTime s t (goes_on n h) i v = Going-InTime n s t (go_on-Going n s t h) i v
Step-InTime s t (gives_up n h) i v =
    subst InTime (sym (give_up-clearing n s t h).1) (in_phase-InTime clearing n s (λ k. refl) v)

-- However calls and jobs interleave, each job calls reclaimSpotInstance at most once, and not before
-- its time.
pub Reachable-InTime : (m : Imds) (now : ℕ) (s : Jobs) → Reachable m now s → InTime s
Reachable-InTime m now _ starts = record { timely = tt; once = tt }
Reachable-InTime m now t (steps {s = s} r h) =
    Step-InTime s t h (Reachable-IsRegistered m now s r) (Reachable-InTime m now s r)
