-- ===== src/AutoScaling/WarmJobs/Tracked.antt =====
-- The jobs of scheduleAsyncWarmPoolDeletion in pkg/dc2/dispatcher_autoscaling.go and the entries of
-- the map warmPoolDeleteJobs.
use dc.Prelude.{
  ℕ, ◌≤◌, String, Bool, true, false, ◌&&◌, not, Option, some, List, ◌≡◌, ◌∙◌, sym, ap, refl, ◌⊎◌,
  inl, inr, ◌==◌, arith, Option-cases, Bool-cases, eq_iff, nat_eq,
}
use mathlib.Core.Path.{subst}
use dc.Storage.{lookup, delete}
use dc.Storage.Maps.{lookup-delete}
use dc.AutoScaling.WarmJobs.{
  WarmJob, WarmJobs, initial_delay, max_delay, put, cancel_warm_pool_delete_job,
  finish_warm_pool_delete_job, end_warm_job, retry_warm_job,
}

-- A job that runs and that nobody has cancelled.
abbrev pub is_live : WarmJob → Bool
is_live j = j.runs && not j.cancelled

-- The map has for a group exactly the live job of the group, whose waits stay within the limits.
pub record IsTracked (s : WarmJobs) : Type 0 where
  pub fresh : (k : ℕ) → (s.jobs k).runs ≡ true → k ≤ s.seq
  pub live : (k : ℕ) → is_live (s.jobs k) ≡ true → lookup (s.jobs k).group s.entries ≡ some k
  pub known :
      (group : String) (k : ℕ)
      → lookup group s.entries ≡ some k
      → ((s.jobs k).group ≡ group) × (is_live (s.jobs k) ≡ true)
  pub paced : (k : ℕ) → (initial_delay ≤ (s.jobs k).backoff) × ((s.jobs k).backoff ≤ max_delay)

pub nat_eq-cases : (n k : ℕ) → ((nat_eq n k ≡ true) × (n ≡ k)) ⊎ ((nat_eq n k ≡ false) × ¬ (n ≡ k))
nat_eq-cases n k = elim (Bool-cases (nat_eq n k)) [
  | inl e ↦ inl (e, ground (arith, e))
  | inr e ↦ inr (e, λ p. ground (arith, e, p))
]

-- A job leaves the map when it is not live any more.
dropped-IsTracked :
    (n : ℕ) (j : WarmJob) (entries : List (String × ℕ)) (s : WarmJobs)
    → is_live j ≡ false
    → (j.runs ≡ true → (s.jobs n).runs ≡ true)
    → j.backoff ≡ (s.jobs n).backoff
    → ((g : String) (k : ℕ) → lookup g entries ≡ some k → (lookup g s.entries ≡ some k) × ¬ (n ≡ k))
    → ((g : String) (k : ℕ) → ¬ (n ≡ k) → lookup g s.entries ≡ some k → lookup g entries ≡ some k)
    → IsTracked s
    → IsTracked (record s { entries = entries; jobs = put n j s.jobs })
dropped-IsTracked n j entries s dead runs same fewer stays v = record {
  fresh = λ k. elim (nat_eq-cases n k) [
    | inl (q, p) ↦ rw q (λ r. subst (λ (i : ℕ). i ≤ s.seq) p (v.fresh n (runs r)))
    | inr (q, p) ↦ rw q (v.fresh k)
  ];
  live = λ k. elim (nat_eq-cases n k) [
    | inl (q, p) ↦ rw q (λ r. absurd (ground (arith, r, dead)))
    | inr (q, p) ↦ rw q (λ r. stays (s.jobs k).group k p (v.live k r))
  ];
  known = λ g k h.
      let (old, other) = fewer g k h in
      elim (nat_eq-cases n k) [
        | inl (q, p) ↦ absurd (other p)
        | inr (q, p) ↦ rw q (v.known g k old)
      ];
  paced = λ k. elim (nat_eq-cases n k) [
    | inl (q, p) ↦ rw (q, same) (v.paced n)
    | inr (q, p) ↦ rw q (v.paced k)
  ];
}

-- A job without an entry ends.
kept :
    (n : ℕ) (j : WarmJob) (s : WarmJobs)
    → j.runs ≡ false
    → j.backoff ≡ (s.jobs n).backoff
    → ((g : String) (k : ℕ) → lookup g s.entries ≡ some k → ¬ (n ≡ k))
    → IsTracked s
    → IsTracked (record s { jobs = put n j s.jobs })
kept n j s dead same free v =
    dropped-IsTracked n j s.entries s (ground (arith, dead)) (λ r. absurd (ground (arith, r, dead)))
      same (λ g k h. (h, free g k h)) (λ g k p h. h) v

-- A job has the entry of its own group only.
other_group :
    (s : WarmJobs) (g h : String) (n k : ℕ)
    → IsTracked s
    → lookup g s.entries ≡ some n
    → lookup h s.entries ≡ some k
    → (g == h) ≡ false
    → ¬ (n ≡ k)
other_group s g h n k v a b e p =
    let own = (v.known g n a).0 in
    let theirs = subst (λ (i : ℕ). (s.jobs i).group ≡ h) (sym p) (v.known h k b).0 in
    absurd (ground (arith, own, theirs, eq_iff g h, e))

-- Deleting the entry of a group that a job has.
deleted-IsTracked :
    (g : String) (n : ℕ) (j : WarmJob) (s : WarmJobs)
    → lookup g s.entries ≡ some n
    → is_live j ≡ false
    → (j.runs ≡ true → (s.jobs n).runs ≡ true)
    → j.backoff ≡ (s.jobs n).backoff
    → IsTracked s
    → IsTracked (record s { entries = delete g s.entries; jobs = put n j s.jobs })
deleted-IsTracked g n j s a dead runs same v =
    dropped-IsTracked n j (delete g s.entries) s dead runs same
      (λ h k e. elim (Bool-cases (g == h)) [
        | inl b ↦ absurd (ground (arith, e, b, lookup-delete g h s.entries))
        | inr b ↦
            let old : lookup h s.entries ≡ some k =
              ground (arith, e, b, lookup-delete g h s.entries) in
            (old, other_group s g h n k v a old b)
      ])
      (λ h k other old. elim (Bool-cases (g == h)) [
        | inl b ↦
            let here = subst (λ (i : String). lookup i s.entries ≡ some n) ((eq_iff g h).0 b) a in
            let same' : ◌≡◌ {A = Option ℕ} (some n) (some k) = sym here ∙ old in
            absurd (other (ground (arith, same')))
        | inr b ↦ ground (arith, old, b, lookup-delete g h s.entries)
      ])
      v

pub cancel-IsTracked :
    (group : String) (s : WarmJobs) → IsTracked s → IsTracked (cancel_warm_pool_delete_job group s)
unfolding cancel_warm_pool_delete_job
cancel-IsTracked group s v = elim (Option-cases (lookup group s.entries)) [
  | inl e ↦ rw (e, cancel_warm_pool_delete_job) v
  | inr (n, e) ↦
      rw (e, cancel_warm_pool_delete_job)
        (deleted-IsTracked group n (record (s.jobs n) { cancelled = true }) s e
          (ground (arith, Bool-cases (s.jobs n).runs)) (λ r. r) refl v)
]

owner :
    (s : WarmJobs) (h : String) (n k : ℕ)
    → IsTracked s
    → lookup h s.entries ≡ some k
    → n ≡ k
    → lookup (s.jobs n).group s.entries ≡ some n
owner s h n k v a p =
    let own = subst (λ (i : ℕ). (s.jobs i).group ≡ h) (sym p) (v.known h k a).0 in
    rw own (a ∙ ap some (sym p))

pub end-IsTracked : (n : ℕ) (s : WarmJobs) → IsTracked s → IsTracked (end_warm_job n s)
unfolding end_warm_job finish_warm_pool_delete_job
end-IsTracked n s v =
    let j : WarmJob = record (s.jobs n) { runs = false } in
    let g = (s.jobs n).group in
    elim (Option-cases (lookup g s.entries)) [
      | inl e ↦
          rw (e, finish_warm_pool_delete_job)
            (kept n j s refl refl
              (λ h k a p. let own = owner s h n k v a p in absurd (ground (arith, own, e))) v)
      | inr (m, e) ↦ elim (nat_eq-cases m n) [
        | inl (q, p) ↦
            rw (e, finish_warm_pool_delete_job, q)
              (deleted-IsTracked g n j s (e ∙ ap some p) refl (λ r. absurd (ground (arith, r))) refl
                v)
        | inr (q, p) ↦
            rw (e, finish_warm_pool_delete_job, q)
              (kept n j s refl refl
                (λ h k a c.
                  let same : ◌≡◌ {A = Option ℕ} (some m) (some n) = sym e ∙ owner s h n k v a c in
                  absurd (p (ground (arith, same))))
                v)
      ]
    ]

pub retry-IsTracked : (n : ℕ) (s : WarmJobs) → IsTracked s → IsTracked (retry_warm_job n s)
unfolding retry_warm_job
retry-IsTracked n s v = record {
  fresh = λ k. elim (nat_eq-cases n k) [
    | inl (q, p) ↦ rw (q, sym p) (v.fresh n)
    | inr (q, p) ↦ rw q (v.fresh k)
  ];
  live = λ k. elim (nat_eq-cases n k) [
    | inl (q, p) ↦ rw (q, sym p) (v.live n)
    | inr (q, p) ↦ rw q (v.live k)
  ];
  known = λ g k h. elim (nat_eq-cases n k) [
    | inl (q, p) ↦ rw q (v.known g n (subst (λ (i : ℕ). lookup g s.entries ≡ some i) (sym p) h))
    | inr (q, p) ↦ rw q (v.known g k h)
  ];
  paced = λ k. elim (nat_eq-cases n k) [
    | inl (q, p) ↦ let (a, b) = v.paced n in rw q (omega (arith, a), omega arith)
    | inr (q, p) ↦ rw q (v.paced k)
  ];
}
