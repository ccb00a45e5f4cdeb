-- ===== src/Spot/Schedule/Cancels.antt =====
-- What a cancellation in pkg/dc2/dispatcher_spot.go does to the jobs.
use dc.Prelude.{
  ℕ, String, true, false, some, List, [], ◌∷◌, ◌≡◌, ◌∙◌, ap, refl, inl, inr, ◌⊎◌, ◌==◌, arith,
  Option-cases, Bool-cases,
}
use mathlib.Core.Path.{subst}
use dc.Storage.{lookup}
use dc.Spot.Schedule.{
  Job, Jobs, is_job, write_job, cancelled_job, cancel_job, cancel_existing, cancel_each,
}

-- A job is the same but for its context, and a context that was cancelled stays so.
pub record Softens (i j : Job) : Type 0 where
  pub same : j ≡ record i { cancelled = j.cancelled }
  pub stays : i.cancelled ≡ true → j.cancelled ≡ true

pub Softens-refl : (i : Job) → Softens i i
Softens-refl i = record { same = refl; stays = λ h. h }

pub Softens-trans : (i j k : Job) → Softens i j → Softens j k → Softens i k
Softens-trans i j k p q = record {
  same = q.same ∙ ap (λ (x : Job). record x { cancelled = k.cancelled }) p.same;
  stays = λ h. q.stays (p.stays h);
}

pub is_job-cases : (k n : ℕ) → ((is_job k n ≡ true) × (k ≡ n)) ⊎ ((is_job k n ≡ false) × ¬ (k ≡ n))
is_job-cases k n = elim (Bool-cases (is_job k n)) [
  | inl e ↦ inl (e, ground (arith, e))
  | inr e ↦ inr (e, λ p. ground (arith, e, p))
]

pub write_job-same : (n : ℕ) (j : Job) (jobs : ℕ → Job) → write_job n j jobs n ≡ j
write_job-same n j jobs = elim (is_job-cases n n) [
  | inl (e, p) ↦ rw e refl
  | inr (e, p) ↦ absurd (p refl)
]

pub write_job-other :
    (n k : ℕ) (j : Job) (jobs : ℕ → Job) → ¬ (k ≡ n) → write_job n j jobs k ≡ jobs k
write_job-other n k j jobs h = elim (is_job-cases k n) [
  | inl (e, p) ↦ absurd (h p)
  | inr (e, p) ↦ rw e refl
]

pub cancel_job-Softens : (n k : ℕ) (jobs : ℕ → Job) → Softens (jobs k) (cancel_job n jobs k)
cancel_job-Softens n k jobs = elim (is_job-cases k n) [
  | inl (e, p) ↦ rw (e, p) (record { same = refl; stays = λ h. refl })
  | inr (e, p) ↦ rw e (Softens-refl (jobs k))
]

pub cancel_job-cancelled : (n : ℕ) (jobs : ℕ → Job) → (cancel_job n jobs n).cancelled ≡ true
cancel_job-cancelled n jobs =
    ap (λ (j : Job). j.cancelled) (write_job-same n (cancelled_job (jobs n)) jobs)

pub cancel_existing-Softens :
    (id : String) (s : Jobs) (k : ℕ) → Softens (s.jobs k) (cancel_existing id s k)
unfolding cancel_existing
cancel_existing-Softens id s k = elim (Option-cases (lookup id s.cancels)) [
  | inl e ↦ rw (e, cancel_existing) (Softens-refl (s.jobs k))
  | inr (n, e) ↦ rw (e, cancel_existing) (cancel_job-Softens n k s.jobs)
]

pub cancel_existing-cancelled :
    (id : String) (s : Jobs) (n : ℕ)
    → lookup id s.cancels ≡ some n
    → (cancel_existing id s n).cancelled ≡ true
unfolding cancel_existing
cancel_existing-cancelled id s n e = rw (e, cancel_existing) (cancel_job-cancelled n s.jobs)

pub cancel_each-Softens :
    (es : List (String × ℕ)) (jobs : ℕ → Job) (k : ℕ) → Softens (jobs k) (cancel_each es jobs k)
unfolding cancel_each
cancel_each-Softens [] jobs k = Softens-refl (jobs k)
cancel_each-Softens (e ∷ es) jobs k =
    Softens-trans _ _ _ (cancel_job-Softens e.1 k jobs)
      (cancel_each-Softens es (cancel_job e.1 jobs) k)

pub cancel_each-cancelled :
    (es : List (String × ℕ)) (jobs : ℕ → Job) (id : String) (n : ℕ)
    → lookup id es ≡ some n
    → (cancel_each es jobs n).cancelled ≡ true
unfolding cancel_each lookup
cancel_each-cancelled [] jobs id n h = ground (arith, h)
cancel_each-cancelled ((i, m) ∷ es) jobs id n h = elim (Bool-cases (i == id)) [
  | inl e ↦
      let p : m ≡ n = ground (arith, h, e) in
      (cancel_each-Softens es (cancel_job m jobs) n).stays
        (subst (λ (x : ℕ). (cancel_job m jobs x).cancelled ≡ true) p (cancel_job-cancelled m jobs))
  | inr e ↦ cancel_each-cancelled es (cancel_job m jobs) id n (ground (arith, h, e))
]
