-- ===== src/Analytics/Metric/Resolution.antt =====
-- apps/api/services/analytics/engine.py, `_resolve_event_occurrence`.
pub mod Governing
use marine_time_motion_platf.Prelude.{ℕ, List, [], ◌∷◌, filter, ◌==◌, Option, none, some}
use marine_time_motion_platf.Prelude.Text.{Text, ◌=ᵗ◌}
use marine_time_motion_platf.Journey.Occurrence.{
  EventOccurrence, Result, ok, err, one_or_none, observation_at,
}
use marine_time_motion_platf.Analytics.Metric.{
  EventDefinition, AnalyticsEngine, is_candidate, before, first_by, governed,
}

abbrev pub event_named : Text → List EventDefinition → Result (Option EventDefinition)
event_named name events = one_or_none (filter (λ d. d.name =ᵗ name) events)

-- The query of the occurrences of a slot.
unfoldable pub queried : AnalyticsEngine → ℕ → ℕ → Text → Option EventOccurrence
queried e call event selection =
    first_by (before selection) (filter (is_candidate e call event) e.occurrences)

unfoldable pub resolve_event_occurrence :
    AnalyticsEngine → ℕ → (event_name selection : Text) → Result (Option EventOccurrence)
resolve_event_occurrence e call event_name selection = elim (event_named event_name e.events) [
  | err x ↦ err x
  | ok none ↦ ok none
  | ok (some d) ↦ elim (observation_at call d.id e.observations) [
    | err x ↦ err x
    | ok row ↦ elim (governed e row) [
      | some o ↦ ok (some o)
      | none ↦ ok (queried e call d.id selection)
    ]
  ]
]
