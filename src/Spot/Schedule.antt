-- ===== src/Spot/Schedule.antt =====
-- The jobs that reclaim spot instances: scheduleSpotReclaim, cancelSpotReclaim,
-- cancelAllSpotReclaims and waitUntil of pkg/dc2/dispatcher_spot.go. A job is a goroutine; its steps
-- and the calls of the dispatcher interleave in any order.
pub mod Cancels
pub mod Moves
pub mod Registry
pub mod Live
pub mod Shown
pub mod Notices
pub mod Times
pub mod Punctual
pub mod Ends
use dc.Prelude.{
  ℕ, suc, ◌+◌, ◌-◌, String, Bool, true, false, ◌&&◌, not, Option, none, some, List, [], ◌∷◌, ◌≡◌,
  leb, if◌then◌else◌,
}
use dc.Prelude.Int.{ltb_ℤ, leb_ℤ, pos, pos_part}
use dc.Storage.{lookup, insert, delete}
use dc.Imds.{Imds, set_spot_instance_action, clear_spot_instance_action}
use dc.Dispatcher.{executor_instance_id}
use dc.Spot.{terminate}
use dc.Spot.Plan.{ReclaimPlan}

-- Where a job is: before the notice, before the reclaim, before each of its two deferred calls, or
-- at its end.
pub data Phase : Type 0 where
  noticing : Phase
  reclaiming : Phase
  clearing : Phase
  deregistering : Phase
  over : Phase

-- What the closure of a job holds; `cancelled` is the state of its context.
pub record Job : Type 0 where
  pub instance_id : String
  pub runtime_id : String
  pub notice : ℕ
  pub warn_at : ℕ
  pub reclaim_at : ℕ
  pub cancelled : Bool
  pub phase : Phase

-- A call of reclaimSpotInstance and when it is made.
pub record Reclaim : Type 0 where
  pub job : ℕ
  pub time : ℕ

-- `cancels` is spotReclaimCancels, where a cancel function is the number of its job. Times are
-- nanoseconds since some start.
pub record Jobs : Type 0 where
  pub now : ℕ
  pub next : ℕ
  pub jobs : ℕ → Job
  pub cancels : List (String × ℕ)
  pub imds : Imds
  pub reclaims : List Reclaim

abbrev pub no_job : Job
no_job = record {
  instance_id = "";
  runtime_id = "";
  notice = 0;
  warn_at = 0;
  reclaim_at = 0;
  cancelled = true;
  phase = over;
}

abbrev pub no_jobs : Imds → ℕ → Jobs
no_jobs m now = record {
  now = now;
  next = 0;
  jobs = λ n. no_job;
  cancels = [];
  imds = m;
  reclaims = [];
}

abbrev pub is_job : ℕ → ℕ → Bool
is_job k n = leb k n && leb n k

abbrev pub write_job : ℕ → Job → (ℕ → Job) → ℕ → Job
write_job n j jobs k = if is_job k n then j else jobs k

abbrev pub cancelled_job : Job → Job
cancelled_job j = record j { cancelled = true }

abbrev pub cancel_job : ℕ → (ℕ → Job) → ℕ → Job
cancel_job n jobs = write_job n (cancelled_job (jobs n)) jobs

-- The cancel function that the instance has, if it has one, is called.
unfoldable pub cancel_existing : String → Jobs → ℕ → Job
cancel_existing id s = elim (lookup id s.cancels) [ none ↦ s.jobs | some n ↦ cancel_job n s.jobs ]

unfoldable pub new_job : String → String → ReclaimPlan → ℕ → Job
new_job id runtime plan now = record {
  instance_id = id;
  runtime_id = runtime;
  notice = pos_part plan.notice;
  warn_at = now + pos_part plan.after - pos_part plan.notice;
  reclaim_at = now + pos_part plan.after;
  cancelled = false;
  phase = noticing;
}

-- scheduleSpotReclaim; nothing is a panic on an id that no runtime id can be cut from.
unfoldable pub schedule_spot_reclaim : String → ReclaimPlan → Jobs → Option Jobs
schedule_spot_reclaim id plan s =
    if leb_ℤ plan.after (pos 0) then some s else elim (executor_instance_id id) [
      | none ↦ none
      | some runtime ↦ some (record s {
        next = suc s.next;
        jobs = write_job s.next (new_job id runtime plan s.now) (cancel_existing id s);
        cancels = insert id s.next s.cancels;
      })
    ]

unfoldable pub cancel_spot_reclaim : String → Jobs → Jobs
cancel_spot_reclaim id s = elim (lookup id s.cancels) [
  | none ↦ s
  | some n ↦ record s { jobs = cancel_job n s.jobs; cancels = delete id s.cancels }
]

-- The walk of cancelAllSpotReclaims.
unfoldable pub cancel_each : List (String × ℕ) → (ℕ → Job) → ℕ → Job
cancel_each [] jobs = jobs
cancel_each (e ∷ es) jobs = cancel_each es (cancel_job e.1 jobs)

unfoldable pub cancel_all_spot_reclaims : Jobs → Jobs
cancel_all_spot_reclaims s = record s { jobs = cancel_each s.cancels s.jobs; cancels = [] }

abbrev pub in_phase : Phase → ℕ → Jobs → Jobs
in_phase p n s = record s { jobs = write_job n (record (s.jobs n) { phase = p }) s.jobs }

abbrev pub has_notice : Job → Bool
has_notice j = not (leb j.notice 0)

-- A job that is not kept waiting goes on: it shows its notice, reclaims its instance, and makes its
-- deferred calls in the reverse order.
unfoldable pub go_on : ℕ → Jobs → Option Jobs
go_on n s =
    let j = s.jobs n in
    elim j.phase [
      | noticing ↦
          if not (has_notice j)
          then some (in_phase reclaiming n s)
          else if leb j.warn_at s.now
          then some (
              in_phase reclaiming n (record s {
                imds = set_spot_instance_action j.runtime_id terminate j.reclaim_at s.imds;
              }))
          else none
      | reclaiming ↦
          if leb j.reclaim_at s.now
          then some (
              in_phase clearing n
                (record s { reclaims = record { job = n; time = s.now } ∷ s.reclaims }))
          else none
      | clearing ↦ some (
          in_phase deregistering n
            (record s { imds = clear_spot_instance_action j.runtime_id s.imds }))
      | deregistering ↦ some (in_phase over n (cancel_spot_reclaim j.instance_id s))
      | over ↦ none
    ]

-- A wait that returns false ends the body of the job.
unfoldable pub leave_wait : ℕ → Jobs → Option Jobs
leave_wait n s =
    let j = s.jobs n in
    elim j.phase [
      | noticing ↦ if has_notice j then some (in_phase clearing n s) else none
      | reclaiming ↦ some (in_phase clearing n s)
      | clearing ↦ none
      | deregistering ↦ none
      | over ↦ none
    ]

-- A job that waits and whose context is cancelled returns.
unfoldable pub give_up : ℕ → Jobs → Option Jobs
give_up n s = if (s.jobs n).cancelled then leave_wait n s else none

-- What can happen next.
pub data Step (s : Jobs) : Jobs → Type 0 where
  schedules :
      {t : Jobs}
      → (id : String) (plan : ReclaimPlan) → schedule_spot_reclaim id plan s ≡ some t
      → Step s t
  cancels : (id : String) → Step s (cancel_spot_reclaim id s)
  cancels_all : Step s (cancel_all_spot_reclaims s)
  passes : (d : ℕ) → Step s (record s { now = s.now + d })
  goes_on : {t : Jobs} → (n : ℕ) → go_on n s ≡ some t → Step s t
  gives_up : {t : Jobs} → (n : ℕ) → give_up n s ≡ some t → Step s t

-- The states that a dispatcher without jobs leads to.
pub data Reachable (m : Imds) (now : ℕ) : Jobs → Type 0 where
  starts : Reachable m now (no_jobs m now)
  steps : {s t : Jobs} → Reachable m now s → Step s t → Reachable m now t
