-- ===== src/Analytics/Tests.antt =====
-- A service that was requested, scheduled and served early.
use marine_time_motion_platf.Prelude.{◌≡◌, refl, List, [], ◌∷◌, none, some}
use marine_time_motion_platf.Prelude.Int.{pos, negsuc, ◌+ℤ◌, ◌≤ℤ◌}
use marine_time_motion_platf.Prelude.Round.{round_half_even}
use marine_time_motion_platf.Analytics.Duration.{
  available, hours_between, elapsed, compute_lead_time, compute_planning_lead_time,
  compute_scheduling_gap, compute_execution_delay, compute_early_delivery, StageTime, passive_wait,
  active_service, other,
}
use marine_time_motion_platf.Analytics.Duration.Semantics.{
  durations_add_up, early_delivery-execution_delay,
}

-- Half an hour early.
early :
    (compute_execution_delay (some 7200000000) (some 5400000000)).status ≡ available (negsuc 499999)
unfolding compute_execution_delay elapsed hours_between round_half_even
early = refl

durations_add_up_example :
    (pos 1000000 +ℤ pos 1000000 +ℤ negsuc 499999 ≤ℤ pos 1500000 +ℤ pos 2)
    × (pos 1500000 ≤ℤ pos 1000000 +ℤ pos 1000000 +ℤ negsuc 499999 +ℤ pos 2)
unfolding compute_planning_lead_time compute_scheduling_gap compute_lead_time elapsed hours_between
    round_half_even
durations_add_up_example =
    durations_add_up 0 3600000000 7200000000 5400000000 (pos 1000000) (pos 1000000) (negsuc 499999)
      (pos 1500000) refl refl early refl

abbrev stages : List StageTime
stages =
    record { time_category = passive_wait; duration_hours = some (pos 100) }
    ∷ record { time_category = active_service; duration_hours = some (pos 40) }
    ∷ record { time_category = passive_wait; duration_hours = none }
    ∷ record { time_category = other; duration_hours = some (pos 7) }
    ∷ []

early_delivery-execution_delay_example :
    let e = compute_early_delivery (some (negsuc 499999)) in
    (e.is_early_delivery
      ≡ (compute_execution_delay (some 7200000000) (some 5400000000)).is_early_delivery)
    × (e.status ≡ available (negsuc 499999))
early_delivery-execution_delay_example =
    early_delivery-execution_delay 7200000000 5400000000 (negsuc 499999) early
