-- ===== src/Journey/Timeline.antt =====
-- apps/api/services/journey/reconstructor.py: from the live observations of a vessel call to the
-- rows of its stages. Hours are in millionths, as in the durations.
pub mod Rows
use marine_time_motion_platf.Prelude.{
  ℕ, suc, ◌+◌, Bool, true, false, ◌&&◌, ◌||◌, not, List, [], ◌∷◌, ◌++◌, map, filter, find, leb,
  ◌==◌, if◌then◌else◌, Option, none, some,
}
use marine_time_motion_platf.Prelude.Int.{ℤ}
use marine_time_motion_platf.Prelude.Text.{Text, ◌=ᵗ◌, non_empty}
use marine_time_motion_platf.Analytics.Duration.{hours_between, is_negative}
use marine_time_motion_platf.Journey.Occurrence.{
  EventOccurrence, CanonicalObservation, Result, ok, err,
}
use marine_time_motion_platf.Journey.Selector.{
  Group, group_from, live, is_repeatable, get_canonical_occurrence_id,
}

pub record StageDef : Type 0 where
  pub id : ℕ
  pub name : Text
  pub sequence_index : ℕ
  pub start_event : Text
  pub end_event : Text
  pub time_category : Text
  pub actor_from : Option Text
  pub actor_to : Option Text
  pub is_repeatable : Bool

pub data StageStatus : Type 0 where
  missing available deviated : StageStatus

-- Why a stage is missing.
pub data MissingReason : Type 0 where
  no_observation : Text → MissingReason
  shift_incomplete : MissingReason

pub record StageOccurrence : Type 0 where
  pub journey_instance_id : ℕ
  pub stage_id : ℕ
  pub stage_name : Text
  pub sequence_index : ℕ
  pub shift_occurrence_index : ℕ
  pub time_category : Text
  pub is_available : Bool
  pub is_missing : Bool
  pub is_inferred : Bool
  pub status : StageStatus
  pub inference_reason : Option MissingReason
  pub start_event_occurrence_id : Option ℕ
  pub end_event_occurrence_id : Option ℕ
  pub start_time : Option ℕ
  pub end_time : Option ℕ
  pub duration_hours : Option ℤ
  pub sequence_violation : Option ℤ

-- `instants` and `repeatable`: an event name with its observation, or with its observations.
pub record EventMap : Type 0 where
  pub instants : List (Text × EventOccurrence)
  pub repeatable : List (Text × List EventOccurrence)

abbrev pub lookup : {A : Type 0} → Text → List (Text × A) → Option A
lookup name [] = none
lookup name ((key, a) ∷ rest) = if key =ᵗ name then some a else lookup name rest

-- `sorted(occs, key=lambda o: o.utc_value)`
unfoldable pub insert_by_time : EventOccurrence → List EventOccurrence → List EventOccurrence
insert_by_time o [] = o ∷ []
insert_by_time o (p ∷ ps) =
    let rest = insert_by_time o ps in if leb o.utc_value p.utc_value then o ∷ p ∷ ps else p ∷ rest

unfoldable pub sort_by_time : List EventOccurrence → List EventOccurrence
sort_by_time [] = []
sort_by_time (o ∷ os) = insert_by_time o (sort_by_time os)

abbrev has_id : Option ℕ → EventOccurrence → Bool
has_id none o = false
has_id (some i) o = o.id == i

-- The observation that governs a group: the one decided on, else the first.
unfoldable pub governing : Group → Option ℕ → EventOccurrence
governing g canonical_id = elim (find (has_id canonical_id) (g.first ∷ g.others)) [
  | none ↦ g.first
  | some o ↦ o
]

abbrev pub usable : ℕ → EventOccurrence → Bool
usable call o = live call o && not o.is_quarantined

-- The instant of a group that does not repeat; the decision is looked up only where it is needed.
unfoldable pub instant_of : ℕ → List CanonicalObservation → Group → Result EventOccurrence
instant_of call rows g = elim g.others [
  | [] ↦ ok g.first
  | o ∷ os ↦ elim (get_canonical_occurrence_id call g.event_definition_id rows) [
    | err e ↦ err e
    | ok canonical_id ↦ ok (governing g canonical_id)
  ]
]

-- What one group adds to the map.
unfoldable pub add_group :
    (ℕ → Option Text) → ℕ → List CanonicalObservation → Group → EventMap → Result EventMap
add_group name_of call rows g m = elim (name_of g.event_definition_id) [
  | none ↦ ok m
  | some name ↦
      if not (non_empty name)
      then ok m
      else if is_repeatable name
      then ok (record m { repeatable = (name, sort_by_time (g.first ∷ g.others)) ∷ m.repeatable })
      else elim (instant_of call rows g) [
        | err e ↦ err e
        | ok o ↦ ok (record m { instants = (name, o) ∷ m.instants })
      ]
]

unfoldable pub add_groups :
    (ℕ → Option Text) → ℕ → List CanonicalObservation → List Group → EventMap → Result EventMap
add_groups name_of call rows [] m = ok m
add_groups name_of call rows (g ∷ gs) m = elim (add_group name_of call rows g m) [
  | err e ↦ err e
  | ok m' ↦ add_groups name_of call rows gs m'
]

unfoldable pub build_event_instant_map :
    (ℕ → Option Text) → ℕ → List EventOccurrence → List CanonicalObservation → Result EventMap
build_event_instant_map name_of call occurrences rows =
    add_groups name_of call rows (group_from [] (filter (usable call) occurrences))
      (record { instants = []; repeatable = [] })

-- A new row of a stage, before its events are looked at.
abbrev row_for : ℕ → StageDef → ℕ → StageOccurrence
row_for instance_id d shift_index = record {
  journey_instance_id = instance_id;
  stage_id = d.id;
  stage_name = d.name;
  sequence_index = d.sequence_index;
  shift_occurrence_index = shift_index;
  time_category = d.time_category;
  is_available = false;
  is_missing = true;
  is_inferred = false;
  status = missing;
  inference_reason = none;
  start_event_occurrence_id = none;
  end_event_occurrence_id = none;
  start_time = none;
  end_time = none;
  duration_hours = none;
  sequence_violation = none;
}

abbrev pub missing_row : ℕ → StageDef → ℕ → MissingReason → StageOccurrence
missing_row instance_id d shift_index reason = record (row_for instance_id d shift_index) {
  inference_reason = some reason;
}

-- A row between two observations.
unfoldable pub available_row :
    ℕ → StageDef → ℕ → EventOccurrence → EventOccurrence → StageOccurrence
available_row instance_id d shift_index start end = record (row_for instance_id d shift_index) {
  is_available = true;
  is_missing = false;
  status = available;
  start_event_occurrence_id = some start.id;
  end_event_occurrence_id = some end.id;
  start_time = some start.utc_value;
  end_time = some end.utc_value;
  duration_hours = some (hours_between start.utc_value end.utc_value);
}

-- A stage whose end lies before its start keeps its negative duration and is marked.
unfoldable pub mark_deviation : ℤ → StageOccurrence → StageOccurrence
mark_deviation hours row =
    if is_negative hours
    then record row { sequence_violation = some hours; status = deviated }
    else row

unfoldable pub build_stage_occurrence :
    ℕ → List (Text × EventOccurrence) → StageDef → StageOccurrence
build_stage_occurrence instance_id instants d = elim (lookup d.start_event instants) [
  | none ↦ missing_row instance_id d 0 (no_observation d.start_event)
  | some start ↦ elim (lookup d.end_event instants) [
    | none ↦ missing_row instance_id d 0 (no_observation d.end_event)
    | some end ↦
        mark_deviation (hours_between start.utc_value end.utc_value)
          (available_row instance_id d 0 start end)
  ]
]

-- The loop over the pairs of starts and ends, as long as one of them lasts; the number of the row
-- counts from 1.
unfoldable pub pair_shifts :
    ℕ → StageDef → ℕ → List EventOccurrence → List EventOccurrence → List StageOccurrence
pair_shifts instance_id d i [] [] = []
pair_shifts instance_id d i [] (e ∷ ends) =
    missing_row instance_id d (suc i) shift_incomplete ∷ pair_shifts instance_id d (suc i) [] ends
pair_shifts instance_id d i (s ∷ starts) [] =
    missing_row instance_id d (suc i) shift_incomplete ∷ pair_shifts instance_id d (suc i) starts []
pair_shifts instance_id d i (s ∷ starts) (e ∷ ends) =
    available_row instance_id d (suc i) s e ∷ pair_shifts instance_id d (suc i) starts ends

abbrev or_empty : {A : Type 0} → Option (List A) → List A
or_empty none = []
or_empty (some l) = l

-- Only the first repeatable stage is looked at.
unfoldable pub build_shift_occurrences :
    ℕ → List StageDef → List (Text × List EventOccurrence) → List StageOccurrence
build_shift_occurrences instance_id [] repeatable = []
build_shift_occurrences instance_id (d ∷ ds) repeatable =
    pair_shifts instance_id d 0 (or_empty (lookup d.start_event repeatable))
      (or_empty (lookup d.end_event repeatable))
