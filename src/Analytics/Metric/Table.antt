-- ===== src/Analytics/Metric/Table.antt =====
-- apps/api/services/analytics/engine.py: the table `analytics.lead_time_result`, whose rows the code
-- finds by their definition and their vessel call.
pub mod Slots
use marine_time_motion_platf.Prelude.{
  ℕ, Bool, true, false, ◌&&◌, not, List, [], ◌∷◌, ◌++◌, any, filter, find, ◌==◌, if◌then◌else◌,
  Option, none, some,
}
use marine_time_motion_platf.Analytics.Metric.{LeadTimeResult}

unfoldable pub in_slot : (definition call : ℕ) → LeadTimeResult → Bool
in_slot d c row = (row.definition_id == d) && (row.vessel_call_id == c)

-- `result in (the rows of the definition for the calls)`
unfoldable pub is_queried : ℕ → List ℕ → LeadTimeResult → Bool
is_queried d calls row = (row.definition_id == d) && any (λ c. row.vessel_call_id == c) calls

-- The rows of one definition and some calls: the first of a call stays, later ones are deleted.
unfoldable pub drop_slot : (definition call : ℕ) → List LeadTimeResult → List LeadTimeResult
drop_slot d c [] = []
drop_slot d c (row ∷ rows) =
    let rest = drop_slot d c rows in if in_slot d c row then rest else row ∷ rest

unfoldable pub without_duplicates :
    (definition : ℕ) → (calls : List ℕ) → List LeadTimeResult → List LeadTimeResult
unfolding drop_slot
without_duplicates d calls [] = []
without_duplicates d calls (row ∷ rows) =
    let rest = without_duplicates d calls rows in
    if is_queried d calls row then row ∷ drop_slot d row.vessel_call_id rest else row ∷ rest

-- `existing_results.get(call)`
abbrev pub existing_result : (definition call : ℕ) → List LeadTimeResult → Option LeadTimeResult
existing_result d c rows = find (in_slot d c) rows

unfoldable pub replace :
    (definition call : ℕ) → LeadTimeResult → List LeadTimeResult → List LeadTimeResult
replace d c new [] = []
replace d c new (row ∷ rows) =
    let rest = replace d c new rows in if in_slot d c row then new ∷ rest else row ∷ rest

-- A write to an existing row, or a new row.
unfoldable pub save :
    (definition call : ℕ)
    → Option LeadTimeResult
    → LeadTimeResult
    → List LeadTimeResult
    → List LeadTimeResult
save d c none new rows = rows ++ new ∷ []
save d c (some old) new rows = replace d c new rows
