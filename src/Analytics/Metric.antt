-- ===== src/Analytics/Metric.antt =====
-- apps/api/services/analytics/engine.py with models/analytics.py and models/canonical.py: the tables
-- that a metric is computed from, and which observation of an event it reads. Times are in
-- microseconds and hours in millionths. Texts for display are left out.
pub mod Resolution
pub mod Catalogue
pub mod Call
pub mod Service
pub mod Staged
pub mod Measured
pub mod Corrected
mod Samples
mod Tests
pub mod Table
pub mod Engine
use marine_time_motion_platf.Prelude.{
  ℕ, Bool, true, false, ◌&&◌, ◌||◌, not, List, [], ◌∷◌, ◌++◌, filter, find, ltb, ◌==◌,
  if◌then◌else◌, Option, none, some,
}
use marine_time_motion_platf.Prelude.Int.{ℤ}
use marine_time_motion_platf.Prelude.Text.{Text, text, ◌=ᵗ◌}
use marine_time_motion_platf.Journey.Occurrence.{EventOccurrence, CanonicalObservation}

pub data Availability : Type 0 where
  computable no_source_data : Availability

pub record LeadTimeDefinition : Type 0 where
  pub id : ℕ
  pub name : Text
  pub start_event : Text
  pub end_event : Text
  pub formula_version : Text
  pub occurrence_selection : Text
  pub availability_status : Availability
  pub required_events : List Text
  pub custom_builder : Bool
  pub is_execution_delay : Bool
  pub execution_delay_movement : Option Text

pub data Status : Type 0 where
  available unavailable source_missing : Status

pub data Reason : Type 0 where
  blank_ata : Reason
  both_missing : Text → Text → Reason
  start_missing end_missing no_pilotage : Text → Reason
  times_missing : Reason
  no_source_for : List Text → Reason

pub data DqStatus : Type 0 where
  clean dq_issues missing_data incomplete_timestamps : DqStatus
  no_source : DqStatus

pub data FilterContext : Type 0 where
  excluding : (tenant : Text) (exclude_quarantined : Bool) → FilterContext
  pilotage : (tenant : Text) (movement : Option Text) → FilterContext

-- A row of `analytics.lead_time_result`; a new one has the defaults of its columns, of lists the empty
-- one.
pub record LeadTimeResult : Type 0 where
  pub vessel_call_id : ℕ
  pub definition_id : ℕ
  pub vcn : Option Text
  pub duration_hours : Option ℤ
  pub status : Status
  pub unavailable_reason : Option Reason
  pub formula_version : Option Text
  pub source_record_ids : List ℕ
  pub filter_context : Option FilterContext
  pub exclusions_applied : List Text
  pub dq_status : Option DqStatus
  pub calculated_at : Option ℕ
  pub start_event_occurrence_id : Option ℕ
  pub end_event_occurrence_id : Option ℕ
  pub start_time : Option ℕ
  pub end_time : Option ℕ

pub record VesselCall : Type 0 where
  pub id : ℕ
  pub tenant_id : Text
  pub vcn : Option Text
  pub is_merged : Bool

pub record EventDefinition : Type 0 where
  pub id : ℕ
  pub name : Text

-- A staged row of a vessel call, joined with its batch: of the batch, whether its status is one of
-- "PROCESSING" and "COMMITTED". A key that is missing is null.
pub record StagedCall : Type 0 where
  pub vcn : Option Text
  pub ata : Option Text
  pub tenant_id : Text
  pub is_current : Bool
  pub created_at : ℕ

pub record ServiceRequest : Type 0 where
  pub id : ℕ
  pub vessel_call_id : ℕ
  pub service_type : Text
  pub movement_type : Option Text

pub record ServiceAssignment : Type 0 where
  pub id : ℕ
  pub service_request_id : ℕ
  pub scheduled_time : Option ℕ

pub record ServiceExecution : Type 0 where
  pub id : ℕ
  pub service_assignment_id : ℕ
  pub served_time : Option ℕ

-- What an engine reads, with its tenant, its setting and the time.
pub record AnalyticsEngine : Type 0 where
  pub tenant_id : Text
  pub exclude_quarantined : Bool
  pub now : ℕ
  pub events : List EventDefinition
  pub occurrences : List EventOccurrence
  pub observations : List CanonicalObservation
  pub staged : List StagedCall
  pub requests : List ServiceRequest
  pub assignments : List ServiceAssignment
  pub executions : List ServiceExecution

-- An observation that the query of one slot, a vessel call and an event, finds.
unfoldable pub is_candidate : AnalyticsEngine → ℕ → ℕ → EventOccurrence → Bool
is_candidate e call event o =
    (o.vessel_call_id == call)
    && (o.event_definition_id == event)
    && not o.is_superseded
    && not (e.exclude_quarantined && o.is_quarantined)

-- `order_by(occurrence_index.asc(), utc_value.asc())`, and the same with `desc()`.
abbrev pub earlier : EventOccurrence → EventOccurrence → Bool
earlier o p =
    ltb o.occurrence_index p.occurrence_index
    || ((o.occurrence_index == p.occurrence_index) && ltb o.utc_value p.utc_value)

abbrev pub before : (selection : Text) → EventOccurrence → EventOccurrence → Bool
before selection o p = if selection =ᵗ text "last" then earlier p o else earlier o p

-- `scalars().first()` of the ordered rows.
unfoldable pub first_by :
    (EventOccurrence → EventOccurrence → Bool) → List EventOccurrence → Option EventOccurrence
first_by lt [] = none
first_by lt (o ∷ os) =
    let rest = first_by lt os in
    elim rest [ none ↦ some o | some p ↦ if lt p o then some p else some o ]

-- The observation that a decision of the journey names, unless it is superseded or excluded.
unfoldable pub governed : AnalyticsEngine → Option CanonicalObservation → Option EventOccurrence
governed e none = none
governed e (some row) = elim row.selected_event_occurrence_id [
  | none ↦ none
  | some i ↦ elim (find (λ o. o.id == i) e.occurrences) [
    | none ↦ none
    | some o ↦
        if o.is_superseded || (e.exclude_quarantined && o.is_quarantined) then none else some o
  ]
]
