-- ===== src/Analytics/Metric/Engine/Returns.antt =====
-- The computation of the metrics returns: its queries for one row find one at most.
use marine_time_motion_platf.Prelude.{
  ℕ, ◌≡◌, refl, inl, inr, List, [], ◌∷◌, Option, none, some, Bool-cases, Option-cases, arith,
}
use marine_time_motion_platf.Prelude.Text.{Text}
use marine_time_motion_platf.Journey.Occurrence.{Result, ok}
use marine_time_motion_platf.Journey.Selector.Slots.{IsUnique}
use marine_time_motion_platf.Analytics.Metric.{
  LeadTimeDefinition, LeadTimeResult, VesselCall, EventDefinition, AnalyticsEngine, governed,
}
use marine_time_motion_platf.Analytics.Metric.Resolution.{
  event_named, queried, resolve_event_occurrence,
}
use marine_time_motion_platf.Analytics.Metric.Call.{
  row_for, lacks_ata, event_envelope, without_ata, between, compute_event_duration,
}
use marine_time_motion_platf.Analytics.Metric.Service.{compute_execution_delay}
use marine_time_motion_platf.Analytics.Metric.Table.{save}
use marine_time_motion_platf.Analytics.Metric.Engine.{
  mark_no_source, compute_result, compute_calls, compute_single_definition, counts_of,
  compute_definitions, compute_all_metrics,
}
use marine_time_motion_platf.Analytics.Metric.Engine.Placed.{Availability-cases}

abbrev pub Returns : {A : Type 0} → Result A → Type 0
Returns {A} r = (a : A) × (r ≡ ok a)

-- No two events have one name, as the unique constraint of the table has it.
abbrev pub IsNamed : List EventDefinition → Type 0
IsNamed events = (name : Text) → Returns (event_named name events)

module _ (e : AnalyticsEngine) (named : IsNamed e.events) (unique : IsUnique e.observations) where
  resolve_event_occurrence-Returns :
      (call : ℕ) (name selection : Text) → Returns (resolve_event_occurrence e call name selection)
  unfolding resolve_event_occurrence
  resolve_event_occurrence-Returns call name selection =
      let (found, h) = named name in
      elim (Option-cases found) [
        | inl unknown ↦ (none, ground arith)
        | inr (d, known) ↦
            let (row, at) = unique call d.id in
            elim (Option-cases (governed e row)) [
              | inl free ↦ (queried e call d.id selection, ground arith)
              | inr (o, chosen) ↦ (some o, ground arith)
            ]
      ]

  compute_event_duration-Returns :
      (d : LeadTimeDefinition) (vc : VesselCall) (existing : Option LeadTimeResult)
      → Returns (compute_event_duration e d vc existing)
  unfolding compute_event_duration
  compute_event_duration-Returns d vc existing =
      let (s, h) = resolve_event_occurrence-Returns vc.id d.start_event d.occurrence_selection in
      let (t, g) = resolve_event_occurrence-Returns vc.id d.end_event d.occurrence_selection in
      let row = event_envelope e d vc (row_for d vc existing) in
      elim (Bool-cases (lacks_ata e d vc)) [
        | inl blank ↦ (without_ata row, ground arith)
        | inr present ↦ (between d s t row, ground arith)
      ]

  compute_result-Returns :
      (d : LeadTimeDefinition) (vc : VesselCall) (existing : Option LeadTimeResult)
      → Returns (compute_result e d vc existing)
  unfolding compute_result
  compute_result-Returns d vc existing =
      let (row, h) = compute_event_duration-Returns d vc existing in
      elim (Availability-cases d.availability_status) [
        | inr none_there ↦ (mark_no_source e d vc existing, ground arith)
        | inl there ↦ elim (Bool-cases d.is_execution_delay) [
          | inl delay ↦ (compute_execution_delay e d vc existing, ground arith)
          | inr event ↦ (row, ground arith)
        ]
      ]

  compute_calls-Returns :
      (d : LeadTimeDefinition) (existing : ℕ → Option LeadTimeResult) (vcs : List VesselCall)
      (table : List LeadTimeResult)
      → Returns (compute_calls e d existing vcs table)
  unfolding compute_calls
  compute_calls-Returns d existing [] table = (_, refl)
  compute_calls-Returns d existing (vc ∷ vcs) table =
      let (row, h) = compute_result-Returns d vc (existing vc.id) in
      let ((rows, table'), g) =
        compute_calls-Returns d existing vcs (save d.id vc.id (existing vc.id) row table) in
      ((row ∷ rows, table'), ground arith)

  compute_single_definition-Returns :
      (d : LeadTimeDefinition) (vcs : List VesselCall) (table : List LeadTimeResult)
      → Returns (compute_single_definition e d vcs table)
  unfolding compute_single_definition
  compute_single_definition-Returns d vcs table = compute_calls-Returns d _ vcs _

  compute_definitions-Returns :
      (vcs : List VesselCall) (ds : List LeadTimeDefinition) (table : List LeadTimeResult)
      → Returns (compute_definitions e vcs ds table)
  unfolding compute_definitions
  compute_definitions-Returns vcs [] table = (_, refl)
  compute_definitions-Returns vcs (d ∷ ds) table =
      let ((rows, table'), h) = compute_single_definition-Returns d vcs table in
      let ((summary, table''), g) = compute_definitions-Returns vcs ds table' in
      (((d.id, counts_of rows) ∷ summary, table''), ground arith)

  -- While no two events have one name and no call and event have two decisions, the computation of all
  -- metrics returns its summary and a table, for any catalogue, calls and stored results.
  pub compute_all_metrics-Returns :
      (ids : Option (List ℕ)) (catalogue : List LeadTimeDefinition) (vcs : List VesselCall)
      (table : List LeadTimeResult)
      → Returns (compute_all_metrics e ids catalogue vcs table)
  unfolding compute_all_metrics
  compute_all_metrics-Returns ids catalogue vcs table = compute_definitions-Returns _ catalogue _
