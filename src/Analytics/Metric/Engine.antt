-- ===== src/Analytics/Metric/Engine.antt =====
-- apps/api/services/analytics/engine.py, `_compute_single_definition` and `compute_all_metrics`, over
-- the definitions of the catalogue and the vessel calls. An error leaves the table as it was.
pub mod Placed
pub mod Single
pub mod Metrics
pub mod Returns
use marine_time_motion_platf.Prelude.{
  ℕ, Bool, true, false, ◌&&◌, ◌||◌, not, List, [], ◌∷◌, ◌++◌, map, any, filter, length, ◌+◌, ◌==◌,
  if◌then◌else◌, Option, none, some,
}
use marine_time_motion_platf.Prelude.Text.{Text, text, ◌=ᵗ◌, non_empty}
use marine_time_motion_platf.Journey.Occurrence.{Result, ok, err}
use marine_time_motion_platf.Analytics.Metric.{
  computable, no_source_data, LeadTimeDefinition, available, unavailable, source_missing,
  no_source_for, no_source, excluding, LeadTimeResult, VesselCall, AnalyticsEngine,
}
use marine_time_motion_platf.Analytics.Metric.Call.{row_for, compute_event_duration}
use marine_time_motion_platf.Analytics.Metric.Service.{compute_execution_delay}
use marine_time_motion_platf.Analytics.Metric.Table.{without_duplicates, existing_result, save}

-- The result of a definition that the source has no data for.
unfoldable pub mark_no_source :
    AnalyticsEngine → LeadTimeDefinition → VesselCall → Option LeadTimeResult → LeadTimeResult
mark_no_source e d vc existing = record (row_for d vc existing) {
  vcn = vc.vcn;
  status = source_missing;
  duration_hours = none;
  unavailable_reason = some (no_source_for d.required_events);
  formula_version = some d.formula_version;
  source_record_ids = [];
  filter_context = some (excluding e.tenant_id e.exclude_quarantined);
  exclusions_applied = [];
  dq_status = some no_source;
  calculated_at = some e.now;
}

unfoldable pub compute_result :
    AnalyticsEngine
    → LeadTimeDefinition
    → VesselCall
    → Option LeadTimeResult
    → Result LeadTimeResult
compute_result e d vc existing = elim d.availability_status [
  | no_source_data ↦ ok (mark_no_source e d vc existing)
  | computable ↦
      if d.is_execution_delay
      then ok (compute_execution_delay e d vc existing)
      else compute_event_duration e d vc existing
]

-- The results and the table after them.
abbrev pub Computed : Type 0
Computed = List LeadTimeResult × List LeadTimeResult

-- The loop over the calls; the existing results were read before it.
unfoldable pub compute_calls :
    AnalyticsEngine
    → LeadTimeDefinition
    → (ℕ → Option LeadTimeResult)
    → List VesselCall
    → List LeadTimeResult
    → Result Computed
compute_calls e d existing [] table = ok ([], table)
compute_calls e d existing (vc ∷ vcs) table = elim (compute_result e d vc (existing vc.id)) [
  | err x ↦ err x
  | ok row ↦ elim (compute_calls e d existing vcs (save d.id vc.id (existing vc.id) row table)) [
    | err x ↦ err x
    | ok (rows, table') ↦ ok (row ∷ rows, table')
  ]
]

unfoldable pub compute_single_definition :
    AnalyticsEngine → LeadTimeDefinition → List VesselCall → List LeadTimeResult → Result Computed
compute_single_definition e d vcs table =
    let kept = without_duplicates d.id (map (λ vc. vc.id) vcs) table in
    compute_calls e d (λ c. existing_result d.id c kept) vcs kept

-- `self.tenant_id and self.tenant_id != "*"` confines a query to the tenant.
unfoldable pub in_tenant : AnalyticsEngine → VesselCall → Bool
in_tenant e vc =
    not (non_empty e.tenant_id) || (e.tenant_id =ᵗ text "*") || (vc.tenant_id =ᵗ e.tenant_id)

-- What the query asks of a call; no ids, or an empty list of them, means every call.
unfoldable pub is_active : AnalyticsEngine → Option (List ℕ) → VesselCall → Bool
is_active e ids vc =
    not vc.is_merged
    && in_tenant e vc
    && elim ids [ none ↦ true | some [] ↦ true | some (i ∷ is) ↦ any (λ j. vc.id == j) (i ∷ is) ]

unfoldable pub active_calls : AnalyticsEngine → Option (List ℕ) → List VesselCall → List VesselCall
active_calls e ids vcs = filter (is_active e ids) vcs

-- The rows of merged calls are deleted.
unfoldable pub purge_merged :
    AnalyticsEngine → List VesselCall → List LeadTimeResult → List LeadTimeResult
purge_merged e vcs table =
    let merged = filter (λ vc. vc.is_merged && in_tenant e vc) vcs in
    filter (λ row. not (any (λ vc. row.vessel_call_id == vc.id) merged)) table

-- The counts of one definition in the summary, of which the counts of all are the sums.
pub record Counts : Type 0 where
  pub total : ℕ
  pub available : ℕ
  pub unavailable : ℕ

abbrev is_available : LeadTimeResult → Bool
is_available row = elim row.status [
  | available ↦ true
  | unavailable ↦ false
  | source_missing ↦ false
]

unfoldable pub counts_of : List LeadTimeResult → Counts
counts_of rows = record {
  total = length rows;
  available = length (filter is_available rows);
  unavailable = length (filter (λ r. not (is_available r)) rows);
}

-- The entries of the summary by definition, in the order of the catalogue.
unfoldable pub compute_definitions :
    AnalyticsEngine
    → List VesselCall
    → List LeadTimeDefinition
    → List LeadTimeResult
    → Result (List (ℕ × Counts) × List LeadTimeResult)
compute_definitions e vcs [] table = ok ([], table)
compute_definitions e vcs (d ∷ ds) table = elim (compute_single_definition e d vcs table) [
  | err x ↦ err x
  | ok (rows, table') ↦ elim (compute_definitions e vcs ds table') [
    | err x ↦ err x
    | ok (summary, table'') ↦ ok ((d.id, counts_of rows) ∷ summary, table'')
  ]
]

unfoldable pub compute_all_metrics :
    AnalyticsEngine
    → (ids : Option (List ℕ)) → (catalogue : List LeadTimeDefinition) → List VesselCall
    → List LeadTimeResult
    → Result (List (ℕ × Counts) × List LeadTimeResult)
compute_all_metrics e ids catalogue vcs table =
    compute_definitions e (active_calls e ids vcs) catalogue (purge_merged e vcs table)
