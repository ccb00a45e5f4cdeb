-- ===== src/Examples/Reclaims.antt =====
-- A spot instance with a notice of 3 and a reclaim after 10: the theorems about the jobs of
-- pkg/dc2/dispatcher_spot.go, two time units before the reclaim.
use dc.Prelude.{arith, ℕ, String, true, Option, none, some, ◌≡◌, refl}
use dc.Prelude.Int.{pos}
use dc.Storage.{lookup, insert, delete}
use dc.Imds.{new_imds, spot_action, set_spot_instance_action}
use dc.Dispatcher.{executor_instance_id}
use dc.Spot.{terminate}
use dc.Spot.Plan.{ReclaimPlan}
use dc.Spot.Schedule.{
  Jobs, no_jobs, schedule_spot_reclaim, cancel_spot_reclaim, cancel_all_spot_reclaims, go_on,
  give_up, Reachable, starts, steps, schedules, passes, goes_on, cancel_existing, new_job,
  leave_wait,
}
use dc.Spot.Schedule.Registry.{runs, IsLive}
use dc.Spot.Schedule.Live.{Reachable-one_live, Reachable-cancelled}
use dc.Spot.Schedule.Shown.{Shown}
use dc.Spot.Schedule.Notices.{Reachable-Shown}
use dc.Spot.Schedule.Times.{InTime}
use dc.Spot.Schedule.Punctual.{Reachable-InTime}
use dc.Spot.Schedule.Ends.{HasEnded, moves, go_on-HasEnded}

abbrev plan : ReclaimPlan
plan = record { after = pos 10; notice = pos 3 }

abbrev or_same : Option Jobs → Jobs → Jobs
or_same none s = s
or_same (some t) s = t

abbrev initial : Jobs
initial = no_jobs new_imds 0

abbrev launched : Jobs
launched = or_same (schedule_spot_reclaim "i-a" plan initial) initial

abbrev later : Jobs
later = record launched { now = 8 }

abbrev noticed : Jobs
noticed = or_same (go_on 0 later) later

launched_step : schedule_spot_reclaim "i-a" plan initial ≡ some launched
unfolding schedule_spot_reclaim cancel_existing executor_instance_id
launched_step = refl

noticed_step : go_on 0 later ≡ some noticed
unfolding go_on schedule_spot_reclaim cancel_existing executor_instance_id new_job
noticed_step = refl

noticed-Reachable : Reachable new_imds 0 noticed
unfolding schedule_spot_reclaim cancel_existing executor_instance_id
noticed-Reachable =
    steps (steps (steps starts (schedules "i-a" plan launched_step)) (passes 8))
      (goes_on 0 noticed_step)

noticed-IsLive : IsLive (noticed.jobs 0)
unfolding go_on schedule_spot_reclaim cancel_existing executor_instance_id new_job
noticed-IsLive = record { running = refl; wanted = refl }

clean : (c : String) → spot_action new_imds c ≡ none
unfolding spot_action lookup
clean c = refl

notice : spot_action noticed.imds "a" ≡ some (record { action = terminate; termination_time = 10 })
unfolding go_on schedule_spot_reclaim cancel_existing executor_instance_id new_job spot_action
    set_spot_instance_action lookup insert
notice = refl

-- A job that another schedule of its instance has cancelled takes the new job with it.
rescheduled : Jobs
rescheduled =
    let s = or_same (schedule_spot_reclaim "i-a" plan later) later in
    let a = or_same (give_up 0 s) s in let b = or_same (go_on 0 a) a in or_same (go_on 0 b) b

rescheduled_lost : (rescheduled.jobs 1).cancelled ≡ true
unfolding rescheduled go_on give_up leave_wait schedule_spot_reclaim cancel_spot_reclaim
    cancel_existing executor_instance_id new_job lookup insert delete
rescheduled_lost = refl

Reachable-one_live_example : ◌≡◌ {A = ℕ} 0 0
Reachable-one_live_example =
    Reachable-one_live new_imds 0 noticed 0 0 noticed-Reachable noticed-IsLive noticed-IsLive refl

Reachable-cancelled_example :
    (runs ((cancel_spot_reclaim "i-a" noticed).jobs 0).phase ≡ true
      → ((cancel_spot_reclaim "i-a" noticed).jobs 0).instance_id ≡ "i-a"
      → ((cancel_spot_reclaim "i-a" noticed).jobs 0).cancelled ≡ true)
    × (runs ((cancel_all_spot_reclaims noticed).jobs 0).phase ≡ true
        → ((cancel_all_spot_reclaims noticed).jobs 0).cancelled ≡ true)
Reachable-cancelled_example = Reachable-cancelled new_imds 0 noticed "i-a" 0 noticed-Reachable

Reachable-Shown_example : Shown "a" (record { action = terminate; termination_time = 10 }) noticed
Reachable-Shown_example =
    Reachable-Shown new_imds 0 noticed "a" (record { action = terminate; termination_time = 10 })
      clean noticed-Reachable notice

abbrev due : Jobs
due = record noticed { now = 12 }

abbrev gone : Jobs
gone = or_same (go_on 0 due) due

gone_step : go_on 0 due ≡ some gone
unfolding go_on schedule_spot_reclaim cancel_existing executor_instance_id new_job
gone_step = refl

gone-Reachable : Reachable new_imds 0 gone
unfolding go_on schedule_spot_reclaim cancel_existing executor_instance_id new_job
gone-Reachable = steps (steps noticed-Reachable (passes 4)) (goes_on 0 gone_step)

Reachable-InTime_example : InTime gone
Reachable-InTime_example = Reachable-InTime new_imds 0 gone gone-Reachable

abbrev overdue : Jobs
overdue = record launched { now = 12 }

go_on-HasEnded_example : HasEnded 0 "i-a" "a" (moves 4 0 overdue)
unfolding schedule_spot_reclaim cancel_existing executor_instance_id new_job
go_on-HasEnded_example = go_on-HasEnded 0 overdue refl (omega arith) (omega arith)
