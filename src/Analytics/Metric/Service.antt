-- ===== src/Analytics/Metric/Service.antt =====
-- apps/api/services/analytics/engine.py, `_compute_execution_delay`: the pilotage services of a vessel
-- call and the one that a movement is measured by.
pub mod Joined
pub mod Ordered
pub mod Candidates
pub mod Matched
use marine_time_motion_platf.Prelude.{
  ℕ, Bool, true, false, ◌&&◌, ◌||◌, not, List, [], ◌∷◌, ◌++◌, find, ltb, ◌==◌, if◌then◌else◌,
  Option, none, some,
}
use marine_time_motion_platf.Prelude.Text.{Text, text, ◌=ᵗ◌, non_empty, lower}
use marine_time_motion_platf.Analytics.Duration.{hours_between}
use marine_time_motion_platf.Analytics.Metric.{
  LeadTimeDefinition, available, unavailable, no_pilotage, times_missing, clean, missing_data,
  incomplete_timestamps, pilotage, LeadTimeResult, VesselCall, ServiceRequest, ServiceAssignment,
  ServiceExecution, AnalyticsEngine,
}
use marine_time_motion_platf.Analytics.Metric.Call.{row_for}

pub record Service : Type 0 where
  pub request : ServiceRequest
  pub assignment : ServiceAssignment
  pub execution : ServiceExecution

-- The joins of the query, a row of each table after the other.
abbrev executed : ServiceRequest → ServiceAssignment → List ServiceExecution → List Service
executed r a [] = []
executed r a (x ∷ xs) =
    let rest = executed r a xs in
    if x.service_assignment_id == a.id
    then record { request = r; assignment = a; execution = x } ∷ rest
    else rest

abbrev assigned : ServiceRequest → List ServiceAssignment → List ServiceExecution → List Service
assigned r [] xs = []
assigned r (a ∷ ys) xs =
    if a.service_request_id == r.id then executed r a xs ++ assigned r ys xs else assigned r ys xs

unfoldable pub joined :
    ℕ → List ServiceRequest → List ServiceAssignment → List ServiceExecution → List Service
joined call [] ys xs = []
joined call (r ∷ rs) ys xs =
    let rest = joined call rs ys xs in
    if (r.vessel_call_id == call) && (r.service_type =ᵗ text "Pilotage Service")
    then assigned r ys xs ++ rest
    else rest

-- `order_by(scheduled_time.asc())`, in which a missing time comes last.
abbrev pub scheduled_before : Option ℕ → Option ℕ → Bool
scheduled_before none t = false
scheduled_before (some s) none = true
scheduled_before (some s) (some t) = ltb s t

abbrev pub precedes : Service → Service → Bool
precedes a b = scheduled_before (a.assignment).scheduled_time (b.assignment).scheduled_time

unfoldable pub insert : Service → List Service → List Service
insert s [] = s ∷ []
insert s (t ∷ ts) = let rest = insert s ts in if precedes t s then t ∷ rest else s ∷ t ∷ ts

unfoldable pub ordered : List Service → List Service
ordered [] = []
ordered (s ∷ ss) = insert s (ordered ss)

unfoldable pub services_of : AnalyticsEngine → ℕ → List Service
services_of e call = ordered (joined call e.requests e.assignments e.executions)

-- `movement or "Arrival"`
abbrev pub target_movement : Option Text → Text
target_movement none = text "Arrival"
target_movement (some t) = if non_empty t then t else text "Arrival"

abbrev pub is_for : Text → Service → Bool
is_for target s = elim (s.request).movement_type [
  | none ↦ false
  | some m ↦ non_empty m && (lower m =ᵗ lower target)
]

-- `services[-1]`
unfoldable pub last_of : Service → List Service → Service
last_of s [] = s
last_of s (t ∷ ts) = last_of t ts

-- The service by its place in the order, where no service names the movement.
unfoldable pub inferred : Text → List Service → Option Service
inferred target [] = none
inferred target (s ∷ []) = if lower target =ᵗ text "arrival" then some s else none
inferred target (s ∷ t ∷ ts) =
    if lower target =ᵗ text "arrival"
    then some s
    else if lower target =ᵗ text "sailing"
    then some (last_of t ts)
    else none

unfoldable pub selected_match : Text → List Service → Option Service
selected_match target services = elim (find (is_for target) services) [
  | some s ↦ some s
  | none ↦ inferred target services
]

unfoldable pub delay_envelope :
    AnalyticsEngine → LeadTimeDefinition → VesselCall → LeadTimeResult → LeadTimeResult
delay_envelope e d vc row = record row {
  vcn = vc.vcn;
  formula_version = some d.formula_version;
  filter_context = some (pilotage e.tenant_id d.execution_delay_movement);
  exclusions_applied = [];
  calculated_at = some e.now;
}

abbrev record_ids : Service → List ℕ
record_ids s = (s.request).id ∷ (s.assignment).id ∷ (s.execution).id ∷ []

-- The branches on the selected service and its two times.
unfoldable pub delayed : Text → Option Service → LeadTimeResult → LeadTimeResult
delayed target none row = record row {
  status = unavailable;
  duration_hours = none;
  unavailable_reason = some (no_pilotage target);
  source_record_ids = [];
  dq_status = some missing_data;
}
delayed target (some s) row =
    let incomplete = record row {
      status = unavailable;
      duration_hours = none;
      unavailable_reason = some times_missing;
      source_record_ids = record_ids s;
      dq_status = some incomplete_timestamps;
    } in
    elim (s.assignment).scheduled_time [
      | none ↦ incomplete
      | some scheduled ↦ elim (s.execution).served_time [
        | none ↦ incomplete
        | some served ↦ record row {
          status = available;
          duration_hours = some (hours_between scheduled served);
          unavailable_reason = none;
          start_time = some scheduled;
          end_time = some served;
          source_record_ids = record_ids s;
          dq_status = some clean;
        }
      ]
    ]

unfoldable pub compute_execution_delay :
    AnalyticsEngine → LeadTimeDefinition → VesselCall → Option LeadTimeResult → LeadTimeResult
compute_execution_delay e d vc existing =
    let target = target_movement d.execution_delay_movement in
    delayed target (selected_match target (services_of e vc.id))
      (delay_envelope e d vc (row_for d vc existing))
