-- ===== src/Spot/Schedule/Live.antt =====
-- Every interleaving of the calls and the jobs of pkg/dc2/dispatcher_spot.go: at most one live job
-- for an instance.
use dc.Prelude.{
  ℕ, String, true, Option, none, some, ◌≡◌, ◌∙◌, sym, ap, refl, ◌+◌, arith, inl, inr, Bool-cases,
}
use mathlib.Core.Path.{subst}
use dc.Storage.{lookup}
use dc.Imds.{Imds}
use dc.Spot.Schedule.{
  Phase, reclaiming, clearing, deregistering, Job, Jobs, cancel_spot_reclaim,
  cancel_all_spot_reclaims, Step, schedules, cancels, cancels_all, passes, goes_on, gives_up,
  Reachable, starts, steps,
}
use dc.Spot.Schedule.Moves.{
  Going, passes_notice, shows_notice, reclaims, clears, deregisters, go_on-Going, IsWaiting,
  for_notice, for_reclaim, give_up-clearing, nothing, starts_job, schedule_spot_reclaim-Scheduling,
  warned, unwarned, reclaimed,
}
use dc.Spot.Schedule.Registry.{
  runs, IsLive, IsRegistered, in_phase-IsRegistered, with_rest-IsRegistered, cancel-IsRegistered,
  cancel_all-IsRegistered, scheduled-IsRegistered, over-IsRegistered, cancel_spot_reclaim-lookup,
  cancel_spot_reclaim-Softens,
}

Going-IsRegistered : (n : ℕ) (s t : Jobs) → Going n s t → IsRegistered s → IsRegistered t
Going-IsRegistered n s t (passes_notice e q) v =
    subst IsRegistered (sym q) (in_phase-IsRegistered reclaiming n s refl (rw e refl) v)
Going-IsRegistered n s t (shows_notice e l q) v = subst IsRegistered (sym q) (
    in_phase-IsRegistered reclaiming n (warned n s) refl (rw e refl)
      (with_rest-IsRegistered s (warned n s) refl refl refl v))
Going-IsRegistered n s t (reclaims e l q) v = subst IsRegistered (sym q) (
    in_phase-IsRegistered clearing n (reclaimed n s) refl (rw e refl)
      (with_rest-IsRegistered s (reclaimed n s) refl refl refl v))
Going-IsRegistered n s t (clears e q) v = subst IsRegistered (sym q) (
    in_phase-IsRegistered deregistering n (unwarned n s) refl (rw e refl)
      (with_rest-IsRegistered s (unwarned n s) refl refl refl v))
Going-IsRegistered n s t (deregisters e q) v =
    let id = (s.jobs n).instance_id in
    let same = ap (λ (j : Job). j.instance_id) (cancel_spot_reclaim-Softens id s n).same in
    subst IsRegistered (sym q) (
      over-IsRegistered n (cancel_spot_reclaim id s)
        (subst (λ (x : String). lookup x (cancel_spot_reclaim id s).cancels ≡ none) (sym same)
          (cancel_spot_reclaim-lookup id s))
        (cancel-IsRegistered id s v))

pub waiting-runs : (p : Phase) → IsWaiting p → runs p ≡ true
waiting-runs p (for_notice e) = rw e refl
waiting-runs p (for_reclaim e) = rw e refl

Step-IsRegistered : (s t : Jobs) → Step s t → IsRegistered s → IsRegistered t
Step-IsRegistered s t (schedules id plan h) v =
    elim (schedule_spot_reclaim-Scheduling id plan s t h) [
      | nothing q ↦ subst IsRegistered (sym q) v
      | starts_job r f q ↦ subst IsRegistered (sym q) (scheduled-IsRegistered id r plan s v)
    ]
Step-IsRegistered s _ (cancels id) v = cancel-IsRegistered id s v
Step-IsRegistered s _ cancels_all v = cancel_all-IsRegistered s v
Step-IsRegistered s _ (passes d) v =
    with_rest-IsRegistered s (record s { now = s.now + d }) refl refl refl v
Step-IsRegistered s t (goes_on n h) v = Going-IsRegistered n s t (go_on-Going n s t h) v
Step-IsRegistered s t (gives_up n h) v =
    let (w, q) = give_up-clearing n s t h in
    subst IsRegistered (sym q)
      (in_phase-IsRegistered clearing n s refl (waiting-runs (s.jobs n).phase w) v)

pub Reachable-IsRegistered : (m : Imds) (now : ℕ) (s : Jobs) → Reachable m now s → IsRegistered s
unfolding lookup
Reachable-IsRegistered m now _ starts = record {
  fresh = λ k h. ground (arith, h);
  live = λ k w. ground (arith, w.running);
  known = λ id k h. ground (arith, h);
}
Reachable-IsRegistered m now t (steps {s = s} r h) =
    Step-IsRegistered s t h (Reachable-IsRegistered m now s r)

-- However calls and jobs interleave, two jobs for the same instance that run and are not cancelled
-- are the same job.
pub Reachable-one_live :
    (m : Imds) (now : ℕ) (s : Jobs) (k n : ℕ)
    → Reachable m now s
    → IsLive (s.jobs k)
    → IsLive (s.jobs n)
    → (s.jobs k).instance_id ≡ (s.jobs n).instance_id
    → k ≡ n
Reachable-one_live m now s k n r a b e =
    let v = Reachable-IsRegistered m now s r in
    let p = subst (λ (x : String). lookup x s.cancels ≡ some k) e (v.live k a) in
    let eq : ◌≡◌ {A = Option ℕ} (some k) (some n) = sym p ∙ v.live n b in ground (arith, eq)

cancel_all-lookup : (s : Jobs) (id : String) → lookup id (cancel_all_spot_reclaims s).cancels ≡ none
unfolding cancel_all_spot_reclaims lookup
cancel_all-lookup s id = refl

-- However calls and jobs interleave, after cancelSpotReclaim every job of the instance that runs is
-- cancelled, and after cancelAllSpotReclaims every job that runs is.
pub Reachable-cancelled :
    (m : Imds) (now : ℕ) (s : Jobs) (id : String) (k : ℕ)
    → Reachable m now s
    → (runs ((cancel_spot_reclaim id s).jobs k).phase ≡ true
        → ((cancel_spot_reclaim id s).jobs k).instance_id ≡ id
        → ((cancel_spot_reclaim id s).jobs k).cancelled ≡ true)
      × (runs ((cancel_all_spot_reclaims s).jobs k).phase ≡ true
          → ((cancel_all_spot_reclaims s).jobs k).cancelled ≡ true)
Reachable-cancelled m now s id k r = (
  one (Reachable-IsRegistered m now _ (steps r (cancels id))),
  all (Reachable-IsRegistered m now _ (steps r cancels_all)),
)
  where
    one :
        IsRegistered (cancel_spot_reclaim id s)
        → runs ((cancel_spot_reclaim id s).jobs k).phase ≡ true
        → ((cancel_spot_reclaim id s).jobs k).instance_id ≡ id
        → ((cancel_spot_reclaim id s).jobs k).cancelled ≡ true
    one v a e = elim (Bool-cases ((cancel_spot_reclaim id s).jobs k).cancelled) [
      | inl c ↦ c
      | inr c ↦
          let p =
            subst (λ (x : String). lookup x (cancel_spot_reclaim id s).cancels ≡ some k) e
              (v.live k (record { running = a; wanted = c })) in
          absurd (ground (arith, p, cancel_spot_reclaim-lookup id s))
    ]

    all :
        IsRegistered (cancel_all_spot_reclaims s)
        → runs ((cancel_all_spot_reclaims s).jobs k).phase ≡ true
        → ((cancel_all_spot_reclaims s).jobs k).cancelled ≡ true
    all v a = elim (Bool-cases ((cancel_all_spot_reclaims s).jobs k).cancelled) [
      | inl c ↦ c
      | inr c ↦ absurd (
          ground (
            arith,
            v.live k (record { running = a; wanted = c }),
            cancel_all-lookup s ((cancel_all_spot_reclaims s).jobs k).instance_id,
          ))
    ]
