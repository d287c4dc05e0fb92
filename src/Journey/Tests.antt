-- ===== src/Journey/Tests.antt =====
-- One call with two readings of its arrival, a correction of them, and a shift within a stage.
use marine_time_motion_platf.Prelude.{
  Option, ℕ, ◌*◌, ◌≡◌, Bool-cases, refl, ◌⊎◌, inl, inr, true, false, List, [], ◌∷◌, none, some,
  arith,
}
use marine_time_motion_platf.Prelude.Int.{pos, ◌+ℤ◌}
use marine_time_motion_platf.Prelude.Text.{Text, text, ◌=ᵗ◌}
use marine_time_motion_platf.Journey.Occurrence.{
  EventOccurrence, automatic, steward_override, CanonicalObservation, ok, err, observation_at,
  in_slot,
}
use marine_time_motion_platf.Journey.Selector.{
  Selector, resolve_vessel_call, get_canonical_occurrence_id, select, is_repeatable, QualityIssue,
  group_from, add_to_groups, resolve_groups, resolve_group, decide, sorted, insert, rank, index_of,
}
use marine_time_motion_platf.Journey.Selector.Ranking.{IsChosen, select-IsChosen}
use marine_time_motion_platf.Journey.Selector.Slots.{IsUnique}
use marine_time_motion_platf.Journey.Selector.Decisions.{
  resolve_vessel_call-IsUnique, resolve_vessel_call-select,
}
use marine_time_motion_platf.Prelude.Round.{round_half_even}
use marine_time_motion_platf.Analytics.Duration.{hours_between}
use marine_time_motion_platf.Journey.Timeline.{
  available_row, StageDef, StageOccurrence, build_stage_occurrence, pair_shifts,
}
use marine_time_motion_platf.Journey.Timeline.Rows.{IsRowOf, build_stage_occurrence-IsRowOf}
use marine_time_motion_platf.Journey.Decomposition.{
  carve_shifts, carve_shift, find_overlapping_interval, add_intervals, set_bucket, bucket,
  interval_of, Interval, compute_decomposition, sum_buckets, intervals_of,
}
use marine_time_motion_platf.Journey.Decomposition.Total.{
  sum_hours, uncontained_hours, compute_decomposition_total,
}
use marine_time_motion_platf.Journey.Correction.{
  Request, JourneyStore, create_correction, is_approved, approved_observations,
  record_canonical_override, stored_occurrences, corrected_occurrence, supersede, override_with,
}
use marine_time_motion_platf.Journey.Correction.Governs.{create_correction-IsGoverned}
use marine_time_motion_platf.Journey.Timeline.{
  EventMap, build_event_instant_map, add_groups, add_group, instant_of,
}
use marine_time_motion_platf.Journey.Reconstruction.{Journeys, reconstruct_vessel_call}
use marine_time_motion_platf.Journey.Reconstruction.Run.{IsRun, reconstruct_vessel_call-IsRun}

abbrev pub selector : Selector
selector = record {
  verification_priority = text "Verified" ∷ text "Conflicting" ∷ [];
  source_priority = text "AIS" ∷ text "VTS" ∷ [];
  rule_version = text "1.0";
}

abbrev reading : ℕ → Text → Text → EventOccurrence
reading id status source = record {
  id = id;
  vessel_call_id = 1;
  event_definition_id = 7;
  occurrence_index = id;
  movement_scope = text "ARRIVAL";
  source_timezone = none;
  utc_value = 3600000000 * id;
  confidence = some 9000;
  verification_status = some status;
  source_system = some source;
  correction_history = [];
  human_review_state = none;
  is_quarantined = false;
  superseded_by_id = none;
  is_superseded = false;
  created_at = id;
}

abbrev vts : EventOccurrence
vts = reading 1 (text "Conflicting") (text "VTS")

abbrev ais : EventOccurrence
ais = reading 2 (text "Verified") (text "AIS")

abbrev pub name_of : ℕ → Text
name_of e = text "ATA"

select-IsChosen_example : IsChosen selector (select selector vts (ais ∷ [])) (vts ∷ ais ∷ [])
select-IsChosen_example = select-IsChosen selector vts (ais ∷ [])

pub no_rows-IsUnique : IsUnique []
unfolding observation_at
no_rows-IsUnique call event = (none, refl)

resolve_vessel_call-IsUnique_example :
    (results : List CanonicalObservation) × (rows : List CanonicalObservation)
    × (resolve_vessel_call selector [] name_of 9 1 (vts ∷ ais ∷ []) [] ≡ ok (results, rows))
    × IsUnique rows
resolve_vessel_call-IsUnique_example =
    resolve_vessel_call-IsUnique selector [] name_of 9 1 (vts ∷ ais ∷ []) [] no_rows-IsUnique

abbrev decision : CanonicalObservation
unfolding decide
decision =
    decide selector [] 9 1 (record { event_definition_id = 7; first = vts; others = ais ∷ [] })

run :
    resolve_vessel_call selector [] name_of 9 1 (vts ∷ ais ∷ []) []
    ≡ ok (decision ∷ [], decision ∷ [])
unfolding resolve_vessel_call resolve_groups resolve_group observation_at group_from add_to_groups
    is_repeatable ◌=ᵗ◌ decision
run = refl

resolve_vessel_call-select_example :
    (d : CanonicalObservation) × (observation_at 1 7 (decision ∷ []) ≡ ok (some d))
    × (((d.selection_method ≡ steward_override) × (observation_at 1 7 [] ≡ ok (some d)))
        ⊎ ((d.selection_method ≡ automatic)
            × (d.selected_event_occurrence_id ≡ some (select selector vts (ais ∷ [])).id)))
unfolding is_repeatable ◌=ᵗ◌
resolve_vessel_call-select_example =
    resolve_vessel_call-select selector [] name_of 9 1 (vts ∷ ais ∷ []) [] (decision ∷ [])
      (decision ∷ []) 7 vts ais [] no_rows-IsUnique run refl refl

-- The verified reading is chosen, though it came second.
ais_is_chosen : (select selector vts (ais ∷ [])).id ≡ 2
unfolding select sorted insert rank index_of ◌=ᵗ◌
ais_is_chosen = refl

abbrev steward_row : CanonicalObservation
unfolding decide
steward_row = record decision {
  selection_method = steward_override;
  selected_event_occurrence_id = some 1;
}

one_row-IsUnique : (o : CanonicalObservation) → IsUnique (o ∷ [])
unfolding observation_at
one_row-IsUnique o call event = elim (Bool-cases (in_slot call event o)) [
  | inl here ↦ (some o, ground arith)
  | inr other ↦ (none, ground arith)
]

run_on_steward :
    resolve_vessel_call selector [] name_of 9 1 (vts ∷ ais ∷ []) (steward_row ∷ [])
    ≡ ok (steward_row ∷ [], steward_row ∷ [])
unfolding resolve_vessel_call resolve_groups resolve_group observation_at group_from add_to_groups
    is_repeatable ◌=ᵗ◌ decision in_slot steward_row
run_on_steward = refl

abbrev arrival : StageDef
arrival = record {
  id = 1;
  name = text "Anchorage Wait";
  sequence_index = 2;
  start_event = text "ATA";
  end_event = text "PILOT";
  time_category = text "PASSIVE_WAIT";
  actor_from = none;
  actor_to = none;
  is_repeatable = false;
}

abbrev observed : List (Text × EventOccurrence)
observed = (text "ATA", ais) ∷ (text "PILOT", vts) ∷ []

build_stage_occurrence-IsRowOf_example :
    IsRowOf 3 observed arrival (build_stage_occurrence 3 observed arrival)
build_stage_occurrence-IsRowOf_example = build_stage_occurrence-IsRowOf 3 observed arrival

abbrev stage : Interval
stage = record {
  category = text "HOLD";
  start_time = 0;
  end_time = 36000000000;
  hours = pos 10000000;
}

abbrev shift : List StageOccurrence
unfolding pair_shifts
shift = pair_shifts 3 arrival 0 (vts ∷ []) (ais ∷ [])

compute_decomposition_total_example :
    let d = compute_decomposition (stage ∷ []) shift in
    (d.total_hours ≡ some (sum_buckets d.buckets))
    × (sum_buckets d.buckets
        ≡ sum_hours (stage ∷ []) +ℤ uncontained_hours (stage ∷ []) (intervals_of shift))
compute_decomposition_total_example = compute_decomposition_total stage [] shift

abbrev pub request : Request
request = record {
  vessel_call_id = 1;
  event_definition_id = 7;
  new_utc_value = 5400000000;
  reason = text "log book";
  actor = text "steward";
  prior_event_occurrence_id = some 2;
  approval_state = text "APPROVED";
  new_occurrence_id = 3;
  correction_id = 1;
  now = 10;
}

abbrev pub store : JourneyStore
store = record {
  calls = record { id = 1; tenant_id = none } ∷ [];
  occurrences = vts ∷ ais ∷ [];
  observations = [];
  corrections = [];
  audit = [];
}

abbrev pub corrected_store : JourneyStore
corrected_store = elim (create_correction selector [] name_of request store) [
  | ok db ↦ db
  | err e ↦ store
]

pub correct : create_correction selector [] name_of request store ≡ ok corrected_store
unfolding create_correction stored_occurrences approved_observations record_canonical_override
    resolve_vessel_call resolve_groups resolve_group observation_at group_from add_to_groups
    is_repeatable ◌=ᵗ◌ in_slot corrected_occurrence supersede override_with
correct = refl

pub approved : is_approved request ≡ true
unfolding ◌=ᵗ◌
approved = refl

create_correction-IsGoverned_example :
    IsUnique corrected_store.observations
    × ((s : Selector) (issues : List QualityIssue) (names : ℕ → Text) (now call : ℕ)
          (os : List EventOccurrence) (results rows : List CanonicalObservation)
        → resolve_vessel_call s issues names now call os corrected_store.observations
          ≡ ok (results, rows)
        → get_canonical_occurrence_id 1 7 rows ≡ ok (some 3))
create_correction-IsGoverned_example =
    create_correction-IsGoverned selector [] name_of request store corrected_store no_rows-IsUnique
      approved correct

abbrev no_journeys : Journeys
no_journeys = record {
  observations = [];
  instances = [];
  stages = [];
  handovers = [];
  history = [];
}

abbrev event_name : ℕ → Option Text
event_name e = some (text "ATA")

abbrev first_run : Journeys
first_run =
    elim (reconstruct_vessel_call selector [] name_of event_name (arrival ∷ []) 9 1 1
      (text "SYSTEM") 1 (ais ∷ []) no_journeys) [ ok db ↦ db | err e ↦ no_journeys ]

first_run_goes_through :
    reconstruct_vessel_call selector [] name_of event_name
      (arrival ∷ [])
      9
      1
      1
      (text "SYSTEM")
      1
      (ais ∷ [])
      no_journeys
    ≡ ok first_run
unfolding reconstruct_vessel_call resolve_vessel_call resolve_groups group_from add_to_groups
    is_repeatable ◌=ᵗ◌ build_event_instant_map add_groups add_group instant_of
first_run_goes_through = refl

reconstruct_vessel_call-IsRun_example :
    IsRun selector [] name_of event_name
      (arrival ∷ [])
      9
      1
      1
      (text "SYSTEM")
      1
      (ais ∷ [])
      no_journeys
      first_run
reconstruct_vessel_call-IsRun_example =
    reconstruct_vessel_call-IsRun selector [] name_of event_name (arrival ∷ []) 9 1 1
      (text "SYSTEM") 1 (ais ∷ []) no_journeys first_run first_run_goes_through

abbrev events : EventMap
events = record { instants = (text "ATA", ais) ∷ (text "PILOT", vts) ∷ []; repeatable = [] }

-- A shift from hour 5 to 15 beside a stage from hour 0 to 10 makes a total of 20 hours.
twice_counted :
    (compute_decomposition
      (record {
        category = text "HOLD";
        start_time = 0;
        end_time = 36000000000;
        hours = pos 10000000;
      }
        ∷ [])
      (pair_shifts 3 arrival 0
        (record vts { utc_value = 18000000000 } ∷ [])
        (record ais { utc_value = 54000000000 } ∷ []))).total_hours
    ≡ some (pos 20000000)
unfolding compute_decomposition carve_shifts carve_shift find_overlapping_interval add_intervals
    set_bucket bucket sum_buckets intervals_of interval_of pair_shifts available_row hours_between
    ◌+ℤ◌ ◌=ᵗ◌ round_half_even
twice_counted = refl
