-- ===== src/AutoScaling/WarmJobs.antt =====
-- The jobs that delete a warm pool in the background: scheduleAsyncWarmPoolDeletion,
-- cancelWarmPoolDeleteJob, finishWarmPoolDeleteJob and cancelAllWarmPoolDeleteJobs of
-- pkg/dc2/dispatcher_autoscaling.go. A job is a goroutine that waits, tries, and waits longer.
pub mod Tracked
pub mod Reached
use dc.Prelude.{
  ℕ, suc, ◌+◌, ◌*◌, min, String, Bool, true, false, ◌&&◌, not, Option, none, some, List, [], ◌∷◌,
  ◌≡◌, nat_eq, if◌then◌else◌,
}
use dc.Storage.{lookup, insert, delete}

-- What the closure of a job holds, in milliseconds; a job that runs waits or tries.
pub record WarmJob : Type 0 where
  pub group : String
  pub backoff : ℕ
  pub cancelled : Bool
  pub runs : Bool

-- warmPoolDeleteSeq and warmPoolDeleteJobs, where an entry is the number of its job, and the jobs.
pub record WarmJobs : Type 0 where
  pub seq : ℕ
  pub entries : List (String × ℕ)
  pub jobs : ℕ → WarmJob

abbrev pub initial_delay : ℕ
initial_delay = 250

abbrev pub max_delay : ℕ
max_delay = 2000

abbrev pub idle : WarmJob
idle = record { group = ""; backoff = initial_delay; cancelled = true; runs = false }

abbrev pub no_warm_jobs : WarmJobs
no_warm_jobs = record { seq = 0; entries = []; jobs = λ n. idle }

abbrev pub put : ℕ → WarmJob → (ℕ → WarmJob) → ℕ → WarmJob
put n j jobs m = if nat_eq n m then j else jobs m

-- The cancel function of a job.
abbrev pub cancel_job : ℕ → (ℕ → WarmJob) → ℕ → WarmJob
cancel_job n jobs = put n (record (jobs n) { cancelled = true }) jobs

-- `existing.Cancel()` for the job that is registered.
abbrev pub cancel_registered : Option ℕ → (ℕ → WarmJob) → ℕ → WarmJob
cancel_registered none jobs = jobs
cancel_registered (some n) jobs = cancel_job n jobs

-- scheduleAsyncWarmPoolDeletion up to the start of the goroutine
unfoldable pub schedule_warm_pool_deletion : String → WarmJobs → WarmJobs
schedule_warm_pool_deletion group s =
    let id = suc s.seq in
    record {
      seq = id;
      entries = insert group id s.entries;
      jobs =
          put id (record { group = group; backoff = initial_delay; cancelled = false; runs = true })
            (cancel_registered (lookup group s.entries) s.jobs);
    }

unfoldable pub cancel_warm_pool_delete_job : String → WarmJobs → WarmJobs
cancel_warm_pool_delete_job group s = elim (lookup group s.entries) [
  | none ↦ s
  | some n ↦ record s { entries = delete group s.entries; jobs = cancel_job n s.jobs }
]

-- finishWarmPoolDeleteJob, with which a goroutine ends
unfoldable pub finish_warm_pool_delete_job : String → ℕ → WarmJobs → WarmJobs
finish_warm_pool_delete_job group id s = elim (lookup group s.entries) [
  | none ↦ s
  | some n ↦ if nat_eq n id then record s { entries = delete group s.entries } else s
]

abbrev cancel_entries : List (String × ℕ) → (ℕ → WarmJob) → ℕ → WarmJob
cancel_entries [] jobs = jobs
cancel_entries (e ∷ es) jobs = cancel_entries es (cancel_job e.1 jobs)

unfoldable pub cancel_all_warm_pool_delete_jobs : WarmJobs → WarmJobs
cancel_all_warm_pool_delete_jobs s = record s {
  entries = [];
  jobs = cancel_entries s.entries s.jobs;
}

-- The end of a goroutine: it is over, and its deferred call runs.
unfoldable pub end_warm_job : ℕ → WarmJobs → WarmJobs
unfolding finish_warm_pool_delete_job
end_warm_job n s =
    finish_warm_pool_delete_job (s.jobs n).group n
      (record s { jobs = put n (record (s.jobs n) { runs = false }) s.jobs })

-- An attempt that did not succeed: the job waits twice as long, up to a limit.
unfoldable pub retry_warm_job : ℕ → WarmJobs → WarmJobs
retry_warm_job n s = record s {
  jobs = put n (record (s.jobs n) { backoff = min ((s.jobs n).backoff * 2) max_delay }) s.jobs;
}

-- What can happen next. A job that runs can end at any time: because it is cancelled, or after an
-- attempt; it tries again only if the timer went off before it was cancelled.
pub data Step (s : WarmJobs) : WarmJobs → Type 0 where
  schedules : (group : String) → Step s (schedule_warm_pool_deletion group s)
  cancels : (group : String) → Step s (cancel_warm_pool_delete_job group s)
  cancels_all : Step s (cancel_all_warm_pool_delete_jobs s)
  ends : (n : ℕ) → (s.jobs n).runs ≡ true → Step s (end_warm_job n s)
  retries : (n : ℕ) → (s.jobs n).runs ≡ true → Step s (retry_warm_job n s)

pub data Reachable : WarmJobs → Type 0 where
  starts : Reachable no_warm_jobs
  steps : {s t : WarmJobs} → Reachable s → Step s t → Reachable t
