-- ===== src/Spot/Plan.antt =====
-- When a spot instance is reclaimed: the plan of resolveSpotReclaimPlanForMatchInput in
-- pkg/dc2/dispatcher_spot.go.
use dc.Prelude.{String, ◌≡◌, Option, none, some, if◌then◌else◌, not}
use dc.Prelude.Int.{ℤ, pos, ◌≤ℤ◌, ◌<ℤ◌, ltb_ℤ, leb_ℤ}
use dc.Prelude.Text.{equal_fold}
use dc.TestProfile.{Profile, MatchInput, spot_reclaim}
use dc.Spot.{spot}

-- spotReclaimPlan; the empty plan reclaims nothing.
pub record ReclaimPlan : Type 0 where
  pub after : ℤ
  pub notice : ℤ

abbrev pub no_plan : ReclaimPlan
no_plan = record { after = pos 0; notice = pos 0 }

abbrev or_option : Option ℤ → ℤ → ℤ
or_option none d = d
or_option (some v) d = v

-- The options of the dispatcher, under the active profile if there is one.
planned : ReclaimPlan → Option Profile → MatchInput → ReclaimPlan
planned opts none input = opts
planned opts (some p) input =
    let o = spot_reclaim (some p) input in
    record { after = or_option o.after opts.after; notice = or_option o.notice opts.notice }

clamp : ReclaimPlan → ReclaimPlan
clamp p =
    let n = if ltb_ℤ p.notice (pos 0) then pos 0 else p.notice in
    record { after = p.after; notice = if ltb_ℤ p.after n then p.after else n }

-- resolveSpotReclaimPlanForMatchInput
unfoldable pub resolve_spot_reclaim_plan :
    ReclaimPlan → Option Profile → MatchInput → String → ReclaimPlan
unfolding planned clamp
resolve_spot_reclaim_plan opts profile input market =
    let plan = planned opts profile input in
    if not (equal_fold market spot)
    then no_plan
    else if leb_ℤ plan.after (pos 0)
    then no_plan
    else clamp plan

-- A plan either reclaims nothing or waits for a positive time and warns within it.
pub data IsPlan (p : ReclaimPlan) : Type 0 where
  nothing : p ≡ no_plan → IsPlan p
  within : pos 0 <ℤ p.after → pos 0 ≤ℤ p.notice → p.notice ≤ℤ p.after → IsPlan p
