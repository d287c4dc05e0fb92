-- ===== src/Analytics/Metric/Service/Matched.antt =====
-- Which pilotage service a movement's delay is measured by.
use marine_time_motion_platf.Prelude.{ℕ, ◌≡◌, ◌⊎◌, List, none, some}
use marine_time_motion_platf.Prelude.Members.{In}
use marine_time_motion_platf.Prelude.Text.{Text}
use marine_time_motion_platf.Analytics.Duration.{hours_between}
use marine_time_motion_platf.Analytics.Metric.{
  LeadTimeDefinition, available, unavailable, LeadTimeResult, VesselCall, AnalyticsEngine,
}
use marine_time_motion_platf.Analytics.Metric.Service.{Service, services_of, target_movement}
use marine_time_motion_platf.Analytics.Metric.Service.Joined.{IsPilotage}
use marine_time_motion_platf.Analytics.Metric.Service.Candidates.{
  IsBefore, Names, IsInferred, IsUninferable,
}

-- The service that a movement is measured by: one that names it, before which no other comes that does;
-- or, where none does, the inferred one.
abbrev pub IsChosen : Text → List Service → Service → Type 0
IsChosen target ss s =
    (In s ss × Names target s × ((t : Service) → In t ss → Names target t → ¬ IsBefore t s))
    ⊎ (((t : Service) → In t ss → ¬ Names target t) × IsInferred target ss s)

-- No service names the movement and none can be inferred.
abbrev pub IsUnmatched : Text → List Service → Type 0
IsUnmatched target ss = ((t : Service) → In t ss → ¬ Names target t) × IsUninferable target ss

-- The delay is the signed time from the scheduled to the served time of the chosen service.
abbrev pub IsServed : AnalyticsEngine → LeadTimeDefinition → VesselCall → LeadTimeResult → Type 0
IsServed e d vc row =
    (s : Service) × IsPilotage vc.id s
    × IsChosen (target_movement d.execution_delay_movement) (services_of e vc.id) s
    × (scheduled served : ℕ) × ((s.assignment).scheduled_time ≡ some scheduled)
    × ((s.execution).served_time ≡ some served)
    × (row.status ≡ available)
    × (row.duration_hours ≡ some (hours_between scheduled served))

-- No service is chosen, or the chosen one lacks a time.
abbrev pub IsUnserved : AnalyticsEngine → LeadTimeDefinition → VesselCall → LeadTimeResult → Type 0
IsUnserved e d vc row =
    (IsUnmatched (target_movement d.execution_delay_movement) (services_of e vc.id)
      ⊎ ((s : Service) × IsChosen (target_movement d.execution_delay_movement) (services_of e vc.id)
            s
          × (((s.assignment).scheduled_time ≡ none) ⊎ ((s.execution).served_time ≡ none))))
    × (row.status ≡ unavailable)
    × (row.duration_hours ≡ none)
