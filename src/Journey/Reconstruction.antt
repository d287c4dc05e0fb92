-- ===== src/Journey/Reconstruction.antt =====
-- apps/api/services/journey/reconstructor.py: `reconstruct_vessel_call`, the run that rebuilds the
-- journey of one vessel call. Ids of new rows are given by the database, counting up from an argument.
pub mod Rows
pub mod Run
use marine_time_motion_platf.Prelude.{
  ℕ, suc, ◌+◌, Bool, true, false, ◌&&◌, ◌||◌, not, List, [], ◌∷◌, ◌++◌, map, any, filter, find, ltb,
  leb, ◌==◌, length, if◌then◌else◌, Option, none, some,
}
use marine_time_motion_platf.Prelude.Int.{ℤ}
use marine_time_motion_platf.Prelude.Text.{Text, text, ◌=ᵗ◌}
use marine_time_motion_platf.Analytics.Duration.{hours_between}
use marine_time_motion_platf.Journey.Occurrence.{
  EventOccurrence, CanonicalObservation, Result, ok, err,
}
use marine_time_motion_platf.Journey.Selector.{Selector, QualityIssue, resolve_vessel_call}
use marine_time_motion_platf.Journey.Timeline.{
  StageDef, StageOccurrence, EventMap, build_event_instant_map, build_stage_occurrence,
  build_shift_occurrences,
}
use marine_time_motion_platf.Journey.Decomposition.{
  Interval, intervals_of, Decomposition, compute_decomposition,
}

pub record Coverage : Type 0 where
  pub stages_total : ℕ
  pub stages_available : ℕ
  pub stages_missing : ℕ
  pub stages_inferred : ℕ
  pub shifting_occurrences : ℕ

pub data JourneyStatus : Type 0 where
  reconstructed failed : JourneyStatus

-- What a run computes; the instance holds it, and the history keeps a copy.
pub record Report : Type 0 where
  pub status : JourneyStatus
  pub coverage_summary : Coverage
  pub time_decomposition : Decomposition
  pub deviation_report : List (Text × ℤ)

pub record JourneyInstance : Type 0 where
  pub id : ℕ
  pub vessel_call_id : ℕ
  pub reconstruction_version : ℕ
  pub report : Option Report

-- A stage row with the id that it gets when it is stored.
pub record StoredStage : Type 0 where
  pub id : ℕ
  pub row : StageOccurrence

pub record Handover : Type 0 where
  pub from_stage_occurrence_id : ℕ
  pub to_stage_occurrence_id : ℕ
  pub from_actor : Option Text
  pub to_actor : Option Text
  pub is_available : Bool
  pub handover_time : Option ℕ
  pub wait_duration_hours : Option ℤ

pub record ReconstructionHistory : Type 0 where
  pub journey_instance_id : ℕ
  pub vessel_call_id : ℕ
  pub run_version : ℕ
  pub triggered_by : Text
  pub report : Report
  pub stages : List StageOccurrence

pub record Journeys : Type 0 where
  pub observations : List CanonicalObservation
  pub instances : List JourneyInstance
  pub stages : List StoredStage
  pub handovers : List Handover
  pub history : List ReconstructionHistory

-- `sum(1 for s in rows if p(s))`
unfoldable pub count : (StageOccurrence → Bool) → List StageOccurrence → ℕ
count p [] = 0
count p (r ∷ rows) = if p r then suc (count p rows) else count p rows

unfoldable pub coverage_of : List StageOccurrence → List StageOccurrence → Coverage
coverage_of rows shift_rows = record {
  stages_total = length rows;
  stages_available = count (λ r. r.is_available) rows;
  stages_missing = count (λ r. r.is_missing) rows;
  stages_inferred = count (λ r. r.is_inferred) rows;
  shifting_occurrences = length shift_rows;
}

-- `_build_deviation_report`
unfoldable pub build_deviation_report : List StageOccurrence → List (Text × ℤ)
build_deviation_report [] = []
build_deviation_report (r ∷ rows) =
    let rest = build_deviation_report rows in
    elim r.sequence_violation [ none ↦ rest | some h ↦ (r.stage_name, h) ∷ rest ]

abbrev main_path_max_sequence : ℕ
main_path_max_sequence = 99

abbrev is_main : StageDef → Bool
is_main d = leb d.sequence_index main_path_max_sequence && not d.is_repeatable

abbrev is_branch : StageDef → Bool
is_branch d = ltb main_path_max_sequence d.sequence_index

-- The rows of a run: the main path, and all stages with the branches and the shifts behind it.
unfoldable pub main_rows : ℕ → List StageDef → EventMap → List StageOccurrence
main_rows instance_id stages m =
    map (build_stage_occurrence instance_id m.instants) (filter is_main stages)

unfoldable pub shift_rows : ℕ → List StageDef → EventMap → List StageOccurrence
shift_rows instance_id stages m =
    build_shift_occurrences instance_id (filter (λ d. d.is_repeatable) stages) m.repeatable

unfoldable pub all_rows : ℕ → List StageDef → EventMap → List StageOccurrence
all_rows instance_id stages m =
    main_rows instance_id stages m
    ++ map (build_stage_occurrence instance_id m.instants) (filter is_branch stages)
    ++ shift_rows instance_id stages m

unfoldable pub report_of : ℕ → List StageDef → EventMap → Report
report_of instance_id stages m =
    let rows = all_rows instance_id stages m in
    let shifts = shift_rows instance_id stages m in
    let coverage = coverage_of rows shifts in
    record {
      status = if ltb 0 coverage.stages_available then reconstructed else failed;
      coverage_summary = coverage;
      time_decomposition =
          compute_decomposition (intervals_of (main_rows instance_id stages m)) shifts;
      deviation_report = build_deviation_report rows;
    }

unfoldable pub store_stages : ℕ → List StageOccurrence → List StoredStage
store_stages next_id [] = []
store_stages next_id (r ∷ rows) = record { id = next_id; row = r } ∷ store_stages (suc next_id) rows

-- `sorted(rows, key=lambda r: r.sequence_index)`
unfoldable pub insert_stage : StoredStage → List StoredStage → List StoredStage
insert_stage s [] = s ∷ []
insert_stage s (t ∷ ts) =
    let rest = insert_stage s ts in
    if leb (s.row).sequence_index (t.row).sequence_index then s ∷ t ∷ ts else t ∷ rest

unfoldable pub sort_stages : List StoredStage → List StoredStage
sort_stages [] = []
sort_stages (s ∷ ss) = insert_stage s (sort_stages ss)

abbrev def_of : Text → List StageDef → Option StageDef
def_of name stages = find (λ d. d.name =ᵗ name) stages

handover_between : List StageDef → StoredStage → StoredStage → Handover
handover_between stages current nxt =
    let both = (current.row).is_available && (nxt.row).is_available in
    record {
      from_stage_occurrence_id = current.id;
      to_stage_occurrence_id = nxt.id;
      from_actor = elim (def_of (current.row).stage_name stages) [
        | none ↦ none
        | some d ↦ d.actor_to
      ];
      to_actor = elim (def_of (nxt.row).stage_name stages) [ none ↦ none | some d ↦ d.actor_from ];
      is_available = both;
      handover_time = if both then (current.row).end_time else none;
      wait_duration_hours =
          if both
          then elim (current.row).end_time [
            | none ↦ none
            | some e ↦ elim (nxt.row).start_time [ none ↦ none | some s ↦ some (hours_between e s) ]
          ]
          else none;
    }

unfoldable pub consecutive : List StageDef → List StoredStage → List Handover
unfolding handover_between
consecutive stages [] = []
consecutive stages (s ∷ []) = []
consecutive stages (s ∷ t ∷ rest) = handover_between stages s t ∷ consecutive stages (t ∷ rest)

abbrev is_on_main_path : StoredStage → Bool
is_on_main_path s =
    leb (s.row).sequence_index main_path_max_sequence && ((s.row).shift_occurrence_index == 0)

unfoldable pub build_handovers : List StageDef → List StoredStage → List Handover
build_handovers stages stored = consecutive stages (sort_stages (filter is_on_main_path stored))

-- The instance of a call, at its next version.
abbrev pub instance_of : ℕ → List JourneyInstance → Option JourneyInstance
instance_of call instances = find (λ i. i.vessel_call_id == call) instances

unfoldable pub next_version : ℕ → ℕ → List JourneyInstance → JourneyInstance
next_version new_id call instances = elim (instance_of call instances) [
  | none ↦ record { id = new_id; vessel_call_id = call; reconstruction_version = 1; report = none }
  | some i ↦ record i { reconstruction_version = suc i.reconstruction_version }
]

unfoldable pub put_instance : JourneyInstance → List JourneyInstance → List JourneyInstance
put_instance new [] = new ∷ []
put_instance new (i ∷ is) =
    let rest = put_instance new is in
    if i.vessel_call_id == new.vessel_call_id then new ∷ is else i ∷ rest

abbrev pub of_instance : ℕ → StoredStage → Bool
of_instance i s = (s.row).journey_instance_id == i

abbrev touches : List StoredStage → Handover → Bool
touches prior h =
    any (λ s. (s.id == h.from_stage_occurrence_id) || (s.id == h.to_stage_occurrence_id)) prior

unfoldable pub reconstruct_vessel_call :
    Selector
    → List QualityIssue
    → (ℕ → Text)
    → (ℕ → Option Text)
    → List StageDef
    → (now new_id next_id : ℕ) → (triggered_by : Text) → ℕ
    → List EventOccurrence
    → Journeys
    → Result Journeys
reconstruct_vessel_call s issues name_of event_name stages now new_id next_id triggered_by call
      occurrences db =
    elim (resolve_vessel_call s issues name_of now call occurrences db.observations) [
      | err e ↦ err e
      | ok (results, observations) ↦
          elim (build_event_instant_map event_name call occurrences observations) [
            | err e ↦ err e
            | ok m ↦
                let instance = next_version new_id call db.instances in
                let prior = filter (of_instance instance.id) db.stages in
                let rows = all_rows instance.id stages m in
                let stored = store_stages next_id rows in
                let report = report_of instance.id stages m in
                ok (record {
                  observations = observations;
                  instances = put_instance (record instance { report = some report }) db.instances;
                  stages = filter (λ t. not (of_instance instance.id t)) db.stages ++ stored;
                  handovers =
                      filter (λ h. not (touches prior h)) db.handovers
                      ++ build_handovers stages stored;
                  history =
                      db.history
                      ++ record {
                        journey_instance_id = instance.id;
                        vessel_call_id = call;
                        run_version = instance.reconstruction_version;
                        triggered_by = triggered_by;
                        report = report;
                        stages = rows;
                      }
                        ∷ [];
                })
          ]
    ]
