-- ===== src/AutoScaling/WarmJobs/Reached.antt =====
-- However the jobs of scheduleAsyncWarmPoolDeletion in pkg/dc2/dispatcher_autoscaling.go and the calls
-- that cancel them interleave, the map warmPoolDeleteJobs keeps track of them.
use dc.Prelude.{
  ℕ, suc, String, true, false, Option, none, some, List, [], ◌∷◌, ◌≡◌, ◌∙◌, sym, refl, inl, inr,
  ◌==◌, arith, Option-cases, Bool-cases, eq_iff, eq_refl, if◌then◌else◌,
}
use mathlib.Core.Path.{subst}
use dc.Storage.{lookup, insert}
use dc.Storage.Maps.{lookup-insert, lookup-delete}
use dc.AutoScaling.WarmJobs.{
  WarmJob, WarmJobs, initial_delay, put, cancel_job, cancel_registered, cancel_entries,
  schedule_warm_pool_deletion, cancel_warm_pool_delete_job, cancel_all_warm_pool_delete_jobs, Step,
  schedules, cancels, cancels_all, ends, retries, Reachable, starts, steps,
}
use dc.AutoScaling.WarmJobs.Tracked.{
  is_live, IsTracked, nat_eq-cases, cancel-IsTracked, end-IsTracked, retry-IsTracked,
}

-- The entries and the jobs once the entry of a group is cancelled.
cancelled_entries :
    (group g : String) (s : WarmJobs)
    → lookup g (cancel_warm_pool_delete_job group s).entries
      ≡ (if group == g then none else lookup g s.entries)
unfolding cancel_warm_pool_delete_job
cancelled_entries group g s = elim (Option-cases (lookup group s.entries)) [
  | inr (n, e) ↦ rw (e, cancel_warm_pool_delete_job) (lookup-delete group g s.entries)
  | inl e ↦
      rw (e, cancel_warm_pool_delete_job)
        (elim (Bool-cases (group == g)) [
          | inl b ↦ rw b (rw (sym ((eq_iff group g).0 b), e) refl)
          | inr b ↦ rw b refl
        ])
]

cancelled_jobs :
    (group : String) (s : WarmJobs)
    → ((cancel_warm_pool_delete_job group s).jobs
        ≡ cancel_registered (lookup group s.entries) s.jobs)
      × ((cancel_warm_pool_delete_job group s).seq ≡ s.seq)
unfolding cancel_warm_pool_delete_job
cancelled_jobs group s = elim (Option-cases (lookup group s.entries)) [
  | inr (n, e) ↦ rw (e, cancel_warm_pool_delete_job) (refl, refl)
  | inl e ↦ rw (e, cancel_warm_pool_delete_job) (refl, refl)
]

-- A new job for a group without one.
added-IsTracked :
    (group : String) (entries : List (String × ℕ)) (s : WarmJobs)
    → ((g : String)
        → lookup g entries ≡ (if group == g then some (suc s.seq) else lookup g s.entries))
    → lookup group s.entries ≡ none
    → IsTracked s
    → IsTracked (record {
      seq = suc s.seq;
      entries = entries;
      jobs =
          put
            (suc s.seq)
            (record { group = group; backoff = initial_delay; cancelled = false; runs = true })
            s.jobs;
    })
added-IsTracked group entries s at free v = record {
  fresh = λ k. elim (nat_eq-cases (suc s.seq) k) [
    | inl (q, p) ↦ rw q (λ r. ground (arith, p))
    | inr (q, p) ↦ rw q (λ r. ground (arith, v.fresh k r))
  ];
  live = λ k. elim (nat_eq-cases (suc s.seq) k) [
    | inl (q, p) ↦ rw q (λ r. at group ∙ ground (arith, eq_refl group, p))
    | inr (q, p) ↦ rw q (λ r.
        let old = v.live k r in
        at (s.jobs k).group ∙ elim (Bool-cases (group == (s.jobs k).group)) [
          | inr b ↦ rw b old
          | inl b ↦
              let none' =
                subst (λ (g : String). lookup g s.entries ≡ none) ((eq_iff group _).0 b) free in
              absurd (ground (arith, old, none'))
        ])
  ];
  known = λ g k h. elim (Bool-cases (group == g)) [
    | inl b ↦
        let new : ◌≡◌ {A = Option ℕ} (some (suc s.seq)) (some k) = sym (at g ∙ rw b refl) ∙ h in
        elim (nat_eq-cases (suc s.seq) k) [
          | inl (q, p) ↦ rw q ((eq_iff group g).0 b, refl)
          | inr (q, p) ↦ absurd (p (ground (arith, new)))
        ]
    | inr b ↦
        let old : lookup g s.entries ≡ some k = sym (at g ∙ rw b refl) ∙ h in
        let (own, lives) = v.known g k old in
        elim (nat_eq-cases (suc s.seq) k) [
          | inl (q, p) ↦ absurd (ground (arith, v.fresh k (ground (arith, lives)), p))
          | inr (q, p) ↦ rw q (own, lives)
        ]
  ];
  paced = λ k. elim (nat_eq-cases (suc s.seq) k) [
    | inl (q, p) ↦ rw q (omega arith, omega arith)
    | inr (q, p) ↦ rw q (v.paced k)
  ];
}

schedule-IsTracked :
    (group : String) (s : WarmJobs) → IsTracked s → IsTracked (schedule_warm_pool_deletion group s)
unfolding schedule_warm_pool_deletion
schedule-IsTracked group s v =
    let t = cancel_warm_pool_delete_job group s in
    let (p, q) = cancelled_jobs group s in
    let entries = insert group (suc s.seq) s.entries in
    subst
      (λ (c : ℕ × (ℕ → WarmJob)). IsTracked (record {
        seq = suc c.0;
        entries = entries;
        jobs =
            put (suc c.0)
              (record { group = group; backoff = initial_delay; cancelled = false; runs = true })
              c.1;
      }))
      (λ i. (q i, p i))
      (added-IsTracked group entries t
        (λ g. elim (Bool-cases (group == g)) [
          | inl b ↦ rw (lookup-insert group g (suc s.seq) s.entries, b, q) refl
          | inr b ↦
              rw (lookup-insert group g (suc s.seq) s.entries, b, cancelled_entries group g s)
                (rw b refl)
        ])
        (cancelled_entries group group s ∙ rw (eq_refl group) refl) (cancel-IsTracked group s v))

-- What cancelling all the entries does to a job.
record Ended (es : List (String × ℕ)) (i j : WarmJob) (k : ℕ) : Type 0 where
  group : i.group ≡ j.group
  backoff : i.backoff ≡ j.backoff
  runs : i.runs ≡ j.runs
  live : is_live i ≡ true → is_live j ≡ true
  listed : (g : String) → lookup g es ≡ some k → is_live i ≡ false

cancel_job-Ended :
    (g : String) (n : ℕ) (jobs : ℕ → WarmJob) (k : ℕ)
    → Ended ((g, n) ∷ []) (cancel_job n jobs k) (jobs k) k
unfolding lookup
cancel_job-Ended g n jobs k = elim (nat_eq-cases n k) [
  | inl (q, p) ↦
      rw (q, sym p)
        (record {
          group = refl;
          backoff = refl;
          runs = refl;
          live = λ h. absurd (ground (arith, h));
          listed = λ h e. ground (arith, Bool-cases (jobs n).runs);
        })
  | inr (q, p) ↦ rw q (record {
    group = refl;
    backoff = refl;
    runs = refl;
    live = λ h. h;
    listed = λ h e. absurd (ground (arith, e, p));
  })
]

cancel_entries-Ended :
    (es : List (String × ℕ)) (jobs : ℕ → WarmJob) (k : ℕ)
    → Ended es (cancel_entries es jobs k) (jobs k) k
unfolding lookup
cancel_entries-Ended [] jobs k = record {
  group = refl;
  backoff = refl;
  runs = refl;
  live = λ h. h;
  listed = λ g h. absurd (ground (arith, h));
}
cancel_entries-Ended ((g, n) ∷ es) jobs k =
    let rest = cancel_entries-Ended es (cancel_job n jobs) k in
    let one = cancel_job-Ended g n jobs k in
    record {
      group = rest.group ∙ one.group;
      backoff = rest.backoff ∙ one.backoff;
      runs = rest.runs ∙ one.runs;
      live = λ h. one.live (rest.live h);
      listed = λ h e. elim (Bool-cases (g == h)) [
        | inl b ↦
            let dead = one.listed h (sym (rw b refl) ∙ e) in
            elim (Bool-cases (is_live (cancel_entries es (cancel_job n jobs) k))) [
              | inl l ↦ absurd (ground (arith, rest.live l, dead))
              | inr l ↦ l
            ]
        | inr b ↦ rest.listed h (sym (rw b refl) ∙ e)
      ];
    }

cancel_all-IsTracked : (s : WarmJobs) → IsTracked s → IsTracked (cancel_all_warm_pool_delete_jobs s)
unfolding cancel_all_warm_pool_delete_jobs lookup
cancel_all-IsTracked s v = record {
  fresh = λ k r. v.fresh k (sym (cancel_entries-Ended s.entries s.jobs k).runs ∙ r);
  live = λ k r.
      let e = cancel_entries-Ended s.entries s.jobs k in
      absurd (ground (arith, r, e.listed (s.jobs k).group (v.live k (e.live r))));
  known = λ g k h. absurd (ground (arith, h));
  paced = λ k. rw ((cancel_entries-Ended s.entries s.jobs k).backoff) (v.paced k);
}

move-IsTracked : (s t : WarmJobs) → Step s t → IsTracked s → IsTracked t
move-IsTracked s _ (schedules group) v = schedule-IsTracked group s v
move-IsTracked s _ (cancels group) v = cancel-IsTracked group s v
move-IsTracked s _ cancels_all v = cancel_all-IsTracked s v
move-IsTracked s _ (ends n r) v = end-IsTracked n s v
move-IsTracked s _ (retries n r) v = retry-IsTracked n s v

-- However calls and jobs interleave, the map has for a group exactly the job of the group that runs
-- and is not cancelled, so there is one at most, and every job waits between 250 and 2000
-- milliseconds before it tries.
pub Reachable-IsTracked : (s : WarmJobs) → Reachable s → IsTracked s
unfolding lookup
Reachable-IsTracked _ starts = record {
  fresh = λ k r. absurd (ground (arith, r));
  live = λ k r. absurd (ground (arith, r));
  known = λ g k h. absurd (ground (arith, h));
  paced = λ k. (omega arith, omega arith);
}
Reachable-IsTracked _ (steps {s} {t} r st) = move-IsTracked s t st (Reachable-IsTracked s r)
