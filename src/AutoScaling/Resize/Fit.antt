-- ===== src/AutoScaling/Resize/Fit.antt =====
-- How many instances scaleAutoScalingGroupTo of pkg/dc2/dispatcher_autoscaling.go adds or takes out.
use dc.Prelude.{String, List, if◌then◌else◌}
use dc.Api.Exec.{Exec}
use dc.Executor.{Executor, World}
use dc.Instances.Lifecycle.{Settings}
use dc.Instances.Describe.{Library}
use dc.AutoScaling.Groups.{Group, GroupJson}
use dc.AutoScaling.Members.{terminate_members}
use dc.AutoScaling.Scaling.{move_to_warm_pool}
use dc.AutoScaling.Resize.{reuses}

module _ {R : Type 0} (json : GroupJson R) (lib : Library) {E : Type 0} (x : Executor E)
    (o : Settings) (g : Group R) where
  -- What is done with the instances that are taken out of the group.
  abbrev pub take_out : List String → Exec (World E) (Unit {0})
  take_out ids =
      if reuses json lib x o g
      then move_to_warm_pool x o g.warm_pool_state ids
      else terminate_members x o ids
