-- ===== src/Analytics/Metric/Samples.antt =====
-- The turnaround of one call and the delay of its arrival, with a merged call beside it.
use marine_time_motion_platf.Prelude.{ℕ, ◌*◌, true, false, [], ◌∷◌, none, some}
use marine_time_motion_platf.Prelude.Text.{text}
use marine_time_motion_platf.Journey.Occurrence.{EventOccurrence}
use marine_time_motion_platf.Analytics.Metric.{
  computable, LeadTimeDefinition, VesselCall, EventDefinition, AnalyticsEngine,
}

abbrev pub seen : (id event hour : ℕ) → EventOccurrence
seen id event hour = record {
  id = id;
  vessel_call_id = 1;
  event_definition_id = event;
  occurrence_index = 1;
  movement_scope = text "ARRIVAL";
  source_timezone = none;
  utc_value = 3600000000 * hour;
  confidence = none;
  verification_status = none;
  source_system = none;
  correction_history = [];
  human_review_state = none;
  is_quarantined = false;
  superseded_by_id = none;
  is_superseded = false;
  created_at = id;
}

abbrev pub ata : EventDefinition
ata = record { id = 7; name = text "ATA" }

abbrev pub atd : EventDefinition
atd = record { id = 8; name = text "ATD" }

abbrev pub engine : AnalyticsEngine
engine = record {
  tenant_id = text "*";
  exclude_quarantined = true;
  now = 0;
  events = ata ∷ atd ∷ [];
  occurrences = seen 1 7 1 ∷ seen 2 8 31 ∷ [];
  observations = [];
  staged = [];
  requests =
      record {
        id = 1;
        vessel_call_id = 1;
        service_type = text "Pilotage Service";
        movement_type = some (text "Arrival");
      }
      ∷ [];
  assignments = record { id = 2; service_request_id = 1; scheduled_time = some 7200000000 } ∷ [];
  executions = record { id = 3; service_assignment_id = 2; served_time = some 3600000000 } ∷ [];
}

abbrev pub turnaround : LeadTimeDefinition
turnaround = record {
  id = 10;
  name = text "Turnaround";
  start_event = text "ATA";
  end_event = text "ATD";
  formula_version = text "1.0";
  occurrence_selection = text "first";
  availability_status = computable;
  required_events = [];
  custom_builder = false;
  is_execution_delay = false;
  execution_delay_movement = none;
}

abbrev pub arrival_delay : LeadTimeDefinition
arrival_delay = record turnaround { id = 11; is_execution_delay = true }

abbrev pub ship : VesselCall
ship = record { id = 1; tenant_id = text "t"; vcn = some (text "V1"); is_merged = false }

abbrev pub duplicate : VesselCall
duplicate = record { id = 2; tenant_id = text "t"; vcn = some (text "V2"); is_merged = true }
