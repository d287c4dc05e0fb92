-- ===== src/Analytics/Metric/Engine/Metrics.antt =====
-- The table after the computation of every definition.
use marine_time_motion_platf.Prelude.{
  ℕ, ◌≡◌, refl, sym, subst, ap, ◌∙◌, inl, inr, Bool, true, false, ◌&&◌, List, [], ◌∷◌, filter, ◌==◌,
  if◌then◌else◌, Option, Bool-cases, arith, ==_iff,
}
use marine_time_motion_platf.Prelude.Members.{In, filter-In}
use marine_time_motion_platf.Journey.Occurrence.{ok}
use marine_time_motion_platf.Journey.Selector.Slots.{Result-cases}
use marine_time_motion_platf.Analytics.Metric.{
  LeadTimeDefinition, LeadTimeResult, VesselCall, AnalyticsEngine,
}
use marine_time_motion_platf.Analytics.Metric.Table.{in_slot}
use marine_time_motion_platf.Analytics.Metric.Table.Slots.{rows_at, in_slot_iff}
use marine_time_motion_platf.Analytics.Metric.Engine.{
  compute_single_definition, in_tenant, is_active, active_calls, purge_merged, Counts,
  compute_definitions, compute_all_metrics,
}
use marine_time_motion_platf.Analytics.Metric.Engine.Single.{
  has_call, IsDistinct, In-has_call, compute_single_definition-IsOne,
}

-- One row of a definition for a call.
abbrev pub HasOne : (definition call : ℕ) → List LeadTimeResult → Type 0
HasOne d c table = (row : LeadTimeResult) × (rows_at d c table ≡ row ∷ [])

module _ (e : AnalyticsEngine) (vcs : List VesselCall) (distinct : IsDistinct vcs) where
  HasOne-kept :
      (d : LeadTimeDefinition) (d' : ℕ) (vc : VesselCall)
      (table results table' : List LeadTimeResult)
      → compute_single_definition e d vcs table ≡ ok (results, table')
      → In vc vcs
      → HasOne d' vc.id table
      → HasOne d' vc.id table'
  HasOne-kept d d' vc table results table' done i (row, one) =
      let (ids, stored, unchanged) =
        compute_single_definition-IsOne e d vcs table results table' distinct done in
      elim (Bool-cases (d.id == d')) [
        | inl same ↦
            let (row', j, made, alone) = stored vc i in
            (row', subst (λ k. rows_at k vc.id table' ≡ row' ∷ []) ((==_iff d.id d').0 same) alone)
        | inr other ↦ (row, unchanged d' vc.id (ground arith) ∙ one)
      ]

  compute_definitions-HasOne :
      (ds : List LeadTimeDefinition) (table table' : List LeadTimeResult)
      (summary : List (ℕ × Counts))
      → compute_definitions e vcs ds table ≡ ok (summary, table')
      → ((d' : ℕ) (vc : VesselCall) → In vc vcs → HasOne d' vc.id table → HasOne d' vc.id table')
        × ((d : LeadTimeDefinition) (vc : VesselCall)
            → In d ds
            → In vc vcs
            → HasOne d.id vc.id table')
        × ((d' c : ℕ) → has_call c vcs ≡ false → rows_at d' c table' ≡ rows_at d' c table)
  unfolding compute_definitions
  compute_definitions-HasOne [] table table' summary done =
      let is : table ≡ table' = ground arith in
      (
        λ d' vc i one. subst (HasOne d' vc.id) is one,
        λ d vc i j. absurd i,
        λ d' c h. ap (rows_at d' c) (sym is),
      )
  compute_definitions-HasOne (d ∷ ds) table table' summary done =
      elim (Result-cases (compute_single_definition e d vcs table)) [
        | inl (x, h) ↦ absurd (ground arith)
        | inr ((rows, table1), h) ↦ elim (Result-cases (compute_definitions e vcs ds table1)) [
          | inl (x, g) ↦ absurd (ground arith)
          | inr ((summary', table2), g) ↦
              let is : table2 ≡ table' = ground arith in
              let (keeps, ones, unchanged) =
                compute_definitions-HasOne ds table1 table2 summary' g in
              let (ids, stored, kept) =
                compute_single_definition-IsOne e d vcs table rows table1 distinct h in
              (
                λ d' vc i one.
                    subst (HasOne d' vc.id) is
                      (keeps d' vc i (HasOne-kept d d' vc table rows table1 h i one)),
                λ d' vc i j. subst (HasOne d'.id vc.id) is (elim i [
                  | inl same ↦
                      let (row, k, made, alone) = stored vc j in
                      subst (λ x. HasOne x.id vc.id table2) (sym same)
                        (keeps d.id vc j (row, alone))
                  | inr k ↦ ones d' vc k j
                ]),
                λ d' c out.
                    ap (rows_at d' c) (sym is) ∙ unchanged d' c out ∙ kept d' c (ground arith),
              )
        ]
      ]

has_call-filter :
    (c : ℕ) (p : VesselCall → Bool) (vcs : List VesselCall)
    → has_call c vcs ≡ false
    → has_call c (filter p vcs) ≡ false
has_call-filter c p [] h = refl
has_call-filter c p (vc ∷ vcs) h = ground (arith, has_call-filter c p vcs)

IsDistinct-filter :
    (p : VesselCall → Bool) (vcs : List VesselCall) → IsDistinct vcs → IsDistinct (filter p vcs)
IsDistinct-filter p [] h = tt
IsDistinct-filter p (vc ∷ vcs) (fresh, h) = elim (Bool-cases (p vc)) [
  | inl here ↦
      subst (λ b. IsDistinct (if b then vc ∷ filter p vcs else filter p vcs)) (sym here)
        (has_call-filter vc.id p vcs fresh, IsDistinct-filter p vcs h)
  | inr out ↦
      subst (λ b. IsDistinct (if b then vc ∷ filter p vcs else filter p vcs)) (sym out)
        (IsDistinct-filter p vcs h)
]

-- A call that a filter drops does not come back with another record.
has_call-dropped :
    (m : VesselCall) (p : VesselCall → Bool) (vcs : List VesselCall)
    → IsDistinct vcs
    → In m vcs
    → p m ≡ false
    → has_call m.id (filter p vcs) ≡ false
has_call-dropped m p [] h i out = absurd i
has_call-dropped m p (vc ∷ vcs) (fresh, h) (inl is) out =
    let gone = has_call-filter vc.id p vcs fresh in
    let out' : p vc ≡ false = sym (ap p is) ∙ out in
    subst (λ v. has_call v.id (filter p (vc ∷ vcs)) ≡ false) (sym is) (ground arith)
has_call-dropped m p (vc ∷ vcs) (fresh, h) (inr i) out =
    let rest = has_call-dropped m p vcs h i out in
    let there = In-has_call m vcs i in
    let differs : (m.id == vc.id) ≡ false = elim (Bool-cases (m.id == vc.id)) [
      | inr other ↦ other
      | inl same ↦
          let found = subst (λ c. has_call c vcs ≡ true) ((==_iff m.id vc.id).0 same) there in
          absurd (ground arith)
    ] in
    ground arith

filter_disjoint :
    (p q : LeadTimeResult → Bool) (rows : List LeadTimeResult)
    → ((row : LeadTimeResult) → p row ≡ true → q row ≡ false)
    → filter p (filter q rows) ≡ []
filter_disjoint p q [] h = refl
filter_disjoint p q (row ∷ rows) h = elim (Bool-cases (p row)) [
  | inl here ↦ ground (arith, h row, filter_disjoint p q rows h)
  | inr out ↦ ground (arith, filter_disjoint p q rows h)
]

purge_merged-empty :
    (e : AnalyticsEngine) (vcs : List VesselCall) (table : List LeadTimeResult) (d : ℕ)
    (m : VesselCall)
    → In m vcs
    → m.is_merged ≡ true
    → in_tenant e m ≡ true
    → rows_at d m.id (purge_merged e vcs table) ≡ []
unfolding purge_merged
purge_merged-empty e vcs table d m i merged mine =
    let rows_of = filter (λ vc. vc.is_merged && in_tenant e vc) vcs in
    let j = filter-In (λ vc. vc.is_merged && in_tenant e vc) vcs m i (ground arith) in
    let found = In-has_call m rows_of j in
    filter_disjoint (in_slot d m.id) _ table (λ row h.
      let there : has_call row.vessel_call_id rows_of ≡ true =
        subst (λ c. has_call c rows_of ≡ true) (sym ((in_slot_iff d m.id row).0 h).1) found in
      ground arith)

is_active-merged :
    (e : AnalyticsEngine) (ids : Option (List ℕ)) (m : VesselCall)
    → m.is_merged ≡ true
    → is_active e ids m ≡ false
unfolding is_active
is_active-merged e ids m merged = ground arith

-- After the computation of all metrics over calls with distinct ids, every definition of the catalogue
-- has exactly one row for every active call of the query, and no merged call of the tenant has a row of
-- any definition, whatever the table held before.
pub compute_all_metrics-HasOne :
    (e : AnalyticsEngine) (ids : Option (List ℕ)) (catalogue : List LeadTimeDefinition)
    (vcs : List VesselCall) (table table' : List LeadTimeResult) (summary : List (ℕ × Counts))
    → IsDistinct vcs
    → compute_all_metrics e ids catalogue vcs table ≡ ok (summary, table')
    → ((d : LeadTimeDefinition) (vc : VesselCall)
        → In d catalogue
        → In vc (active_calls e ids vcs)
        → HasOne d.id vc.id table')
      × ((m : VesselCall)
          → In m vcs
          → m.is_merged ≡ true
          → in_tenant e m ≡ true
          → (d : ℕ) → rows_at d m.id table' ≡ [])
unfolding compute_all_metrics active_calls
compute_all_metrics-HasOne e ids catalogue vcs table table' summary distinct done =
    let active = filter (is_active e ids) vcs in
    let (keeps, ones, unchanged) =
      compute_definitions-HasOne e active (IsDistinct-filter (is_active e ids) vcs distinct)
        catalogue (purge_merged e vcs table) table' summary done in
    (
      ones,
      λ m i merged mine d.
          let out =
            has_call-dropped m (is_active e ids) vcs distinct i (is_active-merged e ids m merged) in
          unchanged d m.id out ∙ purge_merged-empty e vcs table d m i merged mine,
    )
