-- ===== src/Analytics/Metric/Call.antt =====
-- apps/api/services/analytics/engine.py, `_compute_event_duration` and `_compute_execution_delay`: the
-- result of one definition for one vessel call.
use marine_time_motion_platf.Prelude.{
  Bool, true, false, ◌&&◌, ◌||◌, not, List, [], ◌∷◌, ltb, if◌then◌else◌, Option, none, some,
}
use marine_time_motion_platf.Prelude.Text.{Text, text, ◌=ᵗ◌, non_empty, strip}
use marine_time_motion_platf.Journey.Occurrence.{EventOccurrence, Result, ok, err}
use marine_time_motion_platf.Analytics.Duration.{hours_between}
use marine_time_motion_platf.Analytics.Metric.{
  LeadTimeDefinition, available, unavailable, blank_ata, both_missing, start_missing, end_missing,
  clean, dq_issues, missing_data, excluding, LeadTimeResult, VesselCall, StagedCall,
  AnalyticsEngine,
}
use marine_time_motion_platf.Analytics.Metric.Resolution.{resolve_event_occurrence}

-- `existing or LeadTimeResult(...)`
unfoldable pub row_for : LeadTimeDefinition → VesselCall → Option LeadTimeResult → LeadTimeResult
row_for d vc (some row) = row
row_for d vc none = record {
  vessel_call_id = vc.id;
  definition_id = d.id;
  vcn = vc.vcn;
  duration_hours = none;
  status = unavailable;
  unavailable_reason = none;
  formula_version = none;
  source_record_ids = [];
  filter_context = none;
  exclusions_applied = [];
  dq_status = none;
  calculated_at = none;
  start_event_occurrence_id = none;
  end_event_occurrence_id = none;
  start_time = none;
  end_time = none;
}

-- `parsed_data["VCN"].as_string() == vcn`, which for a call without a VCN is `IS NULL`.
unfoldable pub same_vcn : Option Text → Option Text → Bool
same_vcn none none = true
same_vcn none (some b) = false
same_vcn (some a) none = false
same_vcn (some a) (some b) = a =ᵗ b

abbrev pub is_staged_for : Text → Option Text → StagedCall → Bool
is_staged_for tenant vcn s = same_vcn s.vcn vcn && (s.tenant_id =ᵗ tenant) && s.is_current

-- The newest staged row of a vessel call.
abbrev pub newer : StagedCall → Option StagedCall → StagedCall
newer s none = s
newer s (some t) = if ltb s.created_at t.created_at then t else s

unfoldable pub newest_staged : Text → Option Text → List StagedCall → Option StagedCall
newest_staged tenant vcn [] = none
newest_staged tenant vcn (s ∷ rest) =
    let found = newest_staged tenant vcn rest in
    if is_staged_for tenant vcn s then some (newer s found) else found

-- A staged row without its ATA.
unfoldable pub is_blank_ata : Option StagedCall → Bool
is_blank_ata none = false
is_blank_ata (some s) = elim s.ata [ none ↦ true | some t ↦ not (non_empty (strip t)) ]

unfoldable pub lacks_ata : AnalyticsEngine → LeadTimeDefinition → VesselCall → Bool
lacks_ata e d vc =
    (d.name =ᵗ text "Turnaround") && is_blank_ata (newest_staged e.tenant_id vc.vcn e.staged)

-- What every event duration writes first.
unfoldable pub event_envelope :
    AnalyticsEngine → LeadTimeDefinition → VesselCall → LeadTimeResult → LeadTimeResult
event_envelope e d vc row = record row {
  vcn = vc.vcn;
  formula_version = some d.formula_version;
  filter_context = some (excluding e.tenant_id e.exclude_quarantined);
  exclusions_applied = if e.exclude_quarantined then text "quarantined" ∷ [] else [];
  calculated_at = some e.now;
}

-- The early return of the turnaround; the references of the row stay as they were.
unfoldable pub without_ata : LeadTimeResult → LeadTimeResult
without_ata row = record row {
  status = unavailable;
  duration_hours = none;
  unavailable_reason = some blank_ata;
  dq_status = some missing_data;
}

-- The branches on the two occurrences. A missing one leaves the row's references to it as they were.
unfoldable pub between :
    LeadTimeDefinition → (start end : Option EventOccurrence) → LeadTimeResult → LeadTimeResult
between d none none row = record row {
  status = unavailable;
  duration_hours = none;
  unavailable_reason = some (both_missing d.start_event d.end_event);
  source_record_ids = [];
  dq_status = some missing_data;
}
between d none (some end) row = record row {
  status = unavailable;
  duration_hours = none;
  unavailable_reason = some (start_missing d.start_event);
  source_record_ids = end.id ∷ [];
  end_event_occurrence_id = some end.id;
  end_time = some end.utc_value;
  dq_status = some missing_data;
}
between d (some start) none row = record row {
  status = unavailable;
  duration_hours = none;
  unavailable_reason = some (end_missing d.end_event);
  source_record_ids = start.id ∷ [];
  start_event_occurrence_id = some start.id;
  start_time = some start.utc_value;
  dq_status = some missing_data;
}
between d (some start) (some end) row = record row {
  status = available;
  duration_hours = some (hours_between start.utc_value end.utc_value);
  unavailable_reason = none;
  start_event_occurrence_id = some start.id;
  end_event_occurrence_id = some end.id;
  start_time = some start.utc_value;
  end_time = some end.utc_value;
  source_record_ids = start.id ∷ end.id ∷ [];
  dq_status = some (if not (start.is_quarantined || end.is_quarantined) then clean else dq_issues);
}

unfoldable pub compute_event_duration :
    AnalyticsEngine
    → LeadTimeDefinition
    → VesselCall
    → Option LeadTimeResult
    → Result LeadTimeResult
compute_event_duration e d vc existing =
    let row = event_envelope e d vc (row_for d vc existing) in
    let start = resolve_event_occurrence e vc.id d.start_event d.occurrence_selection in
    let end = resolve_event_occurrence e vc.id d.end_event d.occurrence_selection in
    if lacks_ata e d vc then ok (without_ata row) else elim start [
      | err x ↦ err x
      | ok s ↦ elim end [ err x ↦ err x | ok t ↦ ok (between d s t row) ]
    ]
