-- ===== src/Analytics/Metric/Catalogue.antt =====
-- apps/api/services/analytics/catalogue.py: the definitions that the catalogue seeds. Descriptions,
-- units and the handling of nulls, which are the same for every seed or for display, are left out.
pub mod Loop
pub mod Installed
use marine_time_motion_platf.Prelude.{
  ℕ, suc, Bool, true, false, List, [], ◌∷◌, ◌++◌, map, find, ◌==◌, if◌then◌else◌, Option, none,
  some,
}
use marine_time_motion_platf.Prelude.Text.{Text, text, ◌=ᵗ◌}
use marine_time_motion_platf.Analytics.Metric.{
  Availability, computable, no_source_data, LeadTimeDefinition,
}

pub record Seed : Type 0 where
  pub name : Text
  pub start_event : Text
  pub end_event : Text
  pub formula_version : Text
  pub occurrence_selection : Text
  pub availability_status : Availability
  pub required_events : List Text
  pub is_execution_delay : Bool
  pub execution_delay_movement : Option Text

-- The seeds that differ by their name and events.
abbrev pub event_seed : Availability → (name start end : Text) → Seed
event_seed a name start end = record {
  name = name;
  start_event = start;
  end_event = end;
  formula_version = text "1.0";
  occurrence_selection = text "first";
  availability_status = a;
  required_events = start ∷ end ∷ [];
  is_execution_delay = false;
  execution_delay_movement = none;
}

abbrev pub delay_seed : (name movement : Text) → List Text → Seed
delay_seed name movement events =
    record (event_seed computable name (text "SCHEDULED_TIME") (text "SERVED_TIME")) {
      required_events = events;
      is_execution_delay = true;
      execution_delay_movement = some movement;
    }

unfoldable pub catalogue_seeds : List Seed
catalogue_seeds =
    event_seed computable (text "Turnaround") (text "ATA") (text "ATD")
    ∷ event_seed computable (text "Anchorage Wait") (text "ANCHORAGE_ARRIVAL")
        (text "PILOT_ON_BOARD_ARRIVAL")
    ∷ event_seed computable (text "Inward Movement") (text "PILOT_ON_BOARD_ARRIVAL")
        (text "ALL_FAST_ARRIVAL")
    ∷ event_seed computable (text "Berth Stay") (text "ALL_FAST_ARRIVAL")
        (text "LAST_LINE_UNTIED_SAILING")
    ∷ event_seed computable (text "Cargo Working") (text "CARGO_START") (text "CARGO_END")
    ∷ event_seed computable (text "Outward Movement") (text "PILOT_ON_BOARD_SAILING")
        (text "BREAKWATER_OUT")
    ∷ delay_seed (text "Arrival Execution Delay") (text "Arrival")
        (text "PILOT_SCHEDULED_ARRIVAL" ∷ text "PILOT_ON_BOARD_ARRIVAL" ∷ [])
    ∷ delay_seed (text "Sailing Execution Delay") (text "Sailing")
        (text "PILOT_SCHEDULED_SAILING" ∷ text "PILOT_ON_BOARD_SAILING" ∷ [])
    ∷ event_seed computable (text "Pre-Arrival") (text "NOMINATION_SUBMITTED") (text "ATA")
    ∷ event_seed computable (text "Pilot Response Arrival") (text "PILOT_REQUEST_ARRIVAL")
        (text "PILOT_ON_BOARD_ARRIVAL")
    ∷ event_seed computable (text "Breakwater In to All Fast") (text "BREAKWATER_IN")
        (text "ALL_FAST_ARRIVAL")
    ∷ event_seed computable (text "First Line to All Fast") (text "FIRST_LINE_TIED_ARRIVAL")
        (text "ALL_FAST_ARRIVAL")
    ∷ event_seed computable (text "Unberthing Duration") (text "FIRST_LINE_UNTIED_SAILING")
        (text "LAST_LINE_UNTIED_SAILING")
    ∷ event_seed computable (text "Breakwater Out to ATD") (text "BREAKWATER_OUT") (text "ATD")
    ∷ event_seed no_source_data (text "Crane Start to Last Move") (text "FIRST_CRANE_MOVEMENT")
        (text "LAST_CRANE_MOVEMENT")
    ∷ event_seed no_source_data (text "First Container to ATD") (text "FIRST_CONTAINER_MOVEMENT")
        (text "ATD")
    ∷ event_seed no_source_data (text "Berthing End to Unmooring Start") (text "BERTHING_END")
        (text "UNMOORING_START")
    ∷ event_seed no_source_data (text "Lashing End to ATD") (text "LASHING_END") (text "ATD")
    ∷ event_seed no_source_data (text "Anchor Drop to Aweigh") (text "ANCHOR_DROP")
        (text "ANCHOR_AWEIGH")
    ∷ event_seed no_source_data (text "Truck Gate Turnaround") (text "GATE_IN") (text "GATE_OUT")
    ∷ []

-- A new row, with the id that the database gives it.
unfoldable pub new_definition : ℕ → Seed → LeadTimeDefinition
new_definition i s = record {
  id = i;
  name = s.name;
  start_event = s.start_event;
  end_event = s.end_event;
  formula_version = s.formula_version;
  occurrence_selection = s.occurrence_selection;
  availability_status = s.availability_status;
  required_events = s.required_events;
  custom_builder = false;
  is_execution_delay = s.is_execution_delay;
  execution_delay_movement = s.execution_delay_movement;
}

-- The update of a row that is there.
unfoldable pub update_definition : Seed → LeadTimeDefinition → LeadTimeDefinition
update_definition s d = record d {
  start_event = s.start_event;
  end_event = s.end_event;
  formula_version = s.formula_version;
  occurrence_selection = s.occurrence_selection;
  availability_status = s.availability_status;
  required_events = s.required_events;
  is_execution_delay = s.is_execution_delay;
  execution_delay_movement = s.execution_delay_movement;
}

abbrev pub definition_named : Text → List LeadTimeDefinition → Option LeadTimeDefinition
definition_named name ds = find (λ d. d.name =ᵗ name) ds

unfoldable pub write_definition :
    LeadTimeDefinition → List LeadTimeDefinition → List LeadTimeDefinition
write_definition row ds = map (λ d. if d.id == row.id then row else d) ds

-- The loop over the seeds, with the next id; `existing` was read before it.
unfoldable pub install :
    (existing : Text → Option LeadTimeDefinition)
    → (next : ℕ) → List Seed
    → List LeadTimeDefinition
    → List LeadTimeDefinition × List LeadTimeDefinition
install existing next [] ds = ([], ds)
install existing next (s ∷ seeds) ds = elim (existing s.name) [
  | some d ↦
      let row = update_definition s d in
      let (rows, ds') = install existing next seeds (write_definition row ds) in (row ∷ rows, ds')
  | none ↦
      let row = new_definition next s in
      let (rows, ds') = install existing (suc next) seeds (ds ++ row ∷ []) in (row ∷ rows, ds')
]

-- The mapping by name, in the order of the seeds, and the table.
unfoldable pub ensure_catalogue :
    ℕ → List LeadTimeDefinition → List LeadTimeDefinition × List LeadTimeDefinition
ensure_catalogue next ds = install (λ name. definition_named name ds) next catalogue_seeds ds
