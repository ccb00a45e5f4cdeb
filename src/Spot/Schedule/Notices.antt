-- ===== src/Spot/Schedule/Notices.antt =====
-- The notices of pkg/dc2/dispatcher_spot.go in every interleaving.
use dc.Prelude.{
  ℕ, String, true, false, Option, none, some, ◌≡◌, ◌∙◌, sym, ap, refl, ◌≤◌, arith, inl, inr,
  Bool-cases, Option-cases, ◌==◌, eq_iff,
}
use mathlib.Core.Path.{subst}
use dc.Storage.{lookup}
use dc.Storage.Maps.{lookup-insert, lookup-delete}
use dc.Imds.{Imds, SpotAction, spot_action, set_spot_instance_action, clear_spot_instance_action}
use dc.Spot.{terminate}
use dc.Spot.Schedule.{
  Phase, noticing, reclaiming, clearing, deregistering, over, Job, Jobs, cancel_spot_reclaim,
  cancel_all_spot_reclaims, in_phase, Step, schedules, cancels, cancels_all, passes, goes_on,
  gives_up, Reachable, starts, steps,
}
use dc.Spot.Schedule.Cancels.{is_job-cases, cancel_each-Softens}
use dc.Spot.Schedule.Moves.{
  Going, passes_notice, shows_notice, reclaims, clears, deregisters, go_on-Going, give_up-clearing,
  nothing, starts_job, schedule_spot_reclaim-Scheduling, warned, unwarned, reclaimed,
}
use dc.Spot.Schedule.Registry.{cancel_spot_reclaim-Softens, IsRegistered}
use dc.Spot.Schedule.Live.{Reachable-IsRegistered}
use dc.Spot.Schedule.Shown.{shows, Shown, HasNotices, in_phase-Shown, softer-Shown, scheduled-Shown}

-- A phase before the notice is not one that shows it.
hidden :
    (n : ℕ) (s : Jobs) (r : String) (a : SpotAction) (p q : Phase)
    → shows q ≡ false
    → (s.jobs n).phase ≡ q
    → (v : Shown r a s) → v.job ≡ n
    → shows p ≡ true
hidden n s r a p q h e v k =
    let shown : shows (s.jobs n).phase ≡ true =
      subst (λ (x : ℕ). shows (s.jobs x).phase ≡ true) k v.showing in
    let off : shows (s.jobs n).phase ≡ false = ap shows e ∙ h in absurd (ground (arith, shown, off))

warned-HasNotices :
    (n : ℕ) (s : Jobs)
    → (s.jobs n).phase ≡ noticing
    → (s.jobs n).warn_at ≤ s.now
    → HasNotices s
    → HasNotices (in_phase reclaiming n (warned n s))
unfolding set_spot_instance_action spot_action
warned-HasNotices n s e l v r a h =
    let found = sym (lookup-insert (s.jobs n).runtime_id r _ s.imds.spot_actions) ∙ h in
    elim (Bool-cases ((s.jobs n).runtime_id == r)) [
      | inr f ↦
          let w = v r a (ground (arith, found, f)) in
          let w' : Shown r a (warned n s) = record {
            job = w.job;
            showing = w.showing;
            runtime = w.runtime;
            time = w.time;
            due = w.due;
          } in
          in_phase-Shown reclaiming n (warned n s) r a w' (λ k. refl)
      | inl f ↦
          let eq : ◌≡◌ {A = Option SpotAction}
              (some (record { action = terminate; termination_time = (s.jobs n).reclaim_at }))
              (some a) =
            ground (arith, found, f) in
          let time : a.termination_time ≡ (s.jobs n).reclaim_at = ground (arith, eq) in
          elim (is_job-cases n n) [
            | inr (b, q) ↦ absurd (q refl)
            | inl (b, q) ↦ record {
              job = n;
              showing = rw b refl;
              runtime = rw b ((eq_iff (s.jobs n).runtime_id r).0 f);
              time = rw b time;
              due = rw b l;
            }
          ]
    ]

unwarned-HasNotices :
    (n : ℕ) (s : Jobs) → HasNotices s → HasNotices (in_phase deregistering n (unwarned n s))
unfolding clear_spot_instance_action spot_action
unwarned-HasNotices n s v r a h =
    let found = sym (lookup-delete (s.jobs n).runtime_id r s.imds.spot_actions) ∙ h in
    elim (Bool-cases ((s.jobs n).runtime_id == r)) [
      | inl f ↦ absurd (ground (arith, found, f))
      | inr f ↦
          let w = v r a (ground (arith, found, f)) in
          let w' : Shown r a (unwarned n s) = record {
            job = w.job;
            showing = w.showing;
            runtime = w.runtime;
            time = w.time;
            due = w.due;
          } in
          in_phase-Shown deregistering n (unwarned n s) r a w' (λ k.
            let same = ap (λ (x : ℕ). (s.jobs x).runtime_id) (sym k) ∙ w.runtime in
            absurd (ground (arith, f, eq_iff (s.jobs n).runtime_id r, same)))
    ]

-- A step that leaves the notices as they are.
pub same_actions : (id : String) (s : Jobs) → (cancel_spot_reclaim id s).imds ≡ s.imds
unfolding cancel_spot_reclaim
same_actions id s = elim (Option-cases (lookup id s.cancels)) [
  | inl e ↦ rw (e, cancel_spot_reclaim) refl
  | inr (n, e) ↦ rw (e, cancel_spot_reclaim) refl
]

same_now : (id : String) (s : Jobs) → (cancel_spot_reclaim id s).now ≡ s.now
unfolding cancel_spot_reclaim
same_now id s = elim (Option-cases (lookup id s.cancels)) [
  | inl e ↦ rw (e, cancel_spot_reclaim) refl
  | inr (n, e) ↦ rw (e, cancel_spot_reclaim) refl
]

cancel-HasNotices : (id : String) (s : Jobs) → HasNotices s → HasNotices (cancel_spot_reclaim id s)
cancel-HasNotices id s v r a h =
    softer-Shown s (cancel_spot_reclaim id s) r a (cancel_spot_reclaim-Softens id s)
      (ground (arith, same_now id s))
      (v r a (ap (λ (m : Imds). spot_action m r) (sym (same_actions id s)) ∙ h))

Going-HasNotices : (n : ℕ) (s t : Jobs) → Going n s t → HasNotices s → HasNotices t
Going-HasNotices n s t (passes_notice e q) v =
    subst HasNotices (sym q) (λ r a h. in_phase-Shown reclaiming n s r a (v r a h) (λ k. refl))
Going-HasNotices n s t (shows_notice e l q) v =
    subst HasNotices (sym q) (warned-HasNotices n s e l v)
Going-HasNotices n s t (reclaims e l q) v = subst HasNotices (sym q) (λ r a h.
    let w = v r a h in
    in_phase-Shown clearing n (reclaimed n s) r a
      (record { job = w.job; showing = w.showing; runtime = w.runtime; time = w.time; due = w.due })
      (λ k. refl))
Going-HasNotices n s t (clears e q) v = subst HasNotices (sym q) (unwarned-HasNotices n s v)
Going-HasNotices n s t (deregisters e q) v =
    let id = (s.jobs n).instance_id in
    let same = ap (λ (j : Job). j.phase) (cancel_spot_reclaim-Softens id s n).same in
    let mid = cancel-HasNotices id s v in
    subst HasNotices (sym q) (λ r a h.
      let w = mid r a h in
      in_phase-Shown over n (cancel_spot_reclaim id s) r a w
        (hidden n (cancel_spot_reclaim id s) r a over deregistering refl (same ∙ e) w))

Step-HasNotices : (s t : Jobs) → Step s t → IsRegistered s → HasNotices s → HasNotices t
unfolding cancel_all_spot_reclaims
Step-HasNotices s t (schedules id plan h) i v =
    elim (schedule_spot_reclaim-Scheduling id plan s t h) [
      | nothing q ↦ subst HasNotices (sym q) v
      | starts_job runtime f q ↦
          subst HasNotices (sym q) (λ r a e. scheduled-Shown id runtime plan s r a i (v r a e))
    ]
Step-HasNotices s _ (cancels id) i v = cancel-HasNotices id s v
Step-HasNotices s _ cancels_all i v = λ r a h.
    softer-Shown s (cancel_all_spot_reclaims s) r a (cancel_each-Softens s.cancels s.jobs)
      (omega arith) (v r a h)
Step-HasNotices s _ (passes d) i v = λ r a h.
    let w = v r a h in
    record {
      job = w.job;
      showing = w.showing;
      runtime = w.runtime;
      time = w.time;
      due = ground (arith, w.due);
    }
Step-HasNotices s t (goes_on n h) i v = Going-HasNotices n s t (go_on-Going n s t h) v
Step-HasNotices s t (gives_up n h) i v =
    let (w, q) = give_up-clearing n s t h in
    subst HasNotices (sym q) (λ r a e. in_phase-Shown clearing n s r a (v r a e) (λ k. refl))

-- However calls and jobs interleave, if the metadata service had no notice at the start, a notice
-- that it has for a container was set by a job of that container: the job is due and has not yet
-- removed its notice, and the notice tells the time of its reclaim.
pub Reachable-Shown :
    (m : Imds) (now : ℕ) (s : Jobs) (r : String) (a : SpotAction)
    → ((c : String) → spot_action m c ≡ none)
    → Reachable m now s
    → spot_action s.imds r ≡ some a
    → Shown r a s
Reachable-Shown m now _ r a clean starts h = absurd (ground (arith, clean r, h))
Reachable-Shown m now t r a clean (steps {s = s} p e) h =
    Step-HasNotices s t e (Reachable-IsRegistered m now s p)
      (λ c b. Reachable-Shown m now s c b clean p) r a h
