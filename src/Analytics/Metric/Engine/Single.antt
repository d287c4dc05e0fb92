-- ===== src/Analytics/Metric/Engine/Single.antt =====
-- One row for each definition and vessel call.
use marine_time_motion_platf.Prelude.{
  ℕ, ◌≡◌, refl, sym, subst, ap, ap₂, ◌∙◌, inl, inr, Bool, true, false, ◌&&◌, List, [], ◌∷◌, map,
  any, ◌==◌, Option, none, some, Bool-cases, arith,
}
use marine_time_motion_platf.Prelude.Members.{In, find-In}
use marine_time_motion_platf.Journey.Occurrence.{ok}
use marine_time_motion_platf.Journey.Selector.Slots.{Result-cases}
use marine_time_motion_platf.Analytics.Metric.{
  LeadTimeDefinition, LeadTimeResult, VesselCall, AnalyticsEngine,
}
use marine_time_motion_platf.Analytics.Metric.Table.{
  in_slot, without_duplicates, existing_result, save,
}
use marine_time_motion_platf.Analytics.Metric.Table.Slots.{
  rows_at, row_list, first_only, in_slot_iff, without_duplicates-queried, without_duplicates-other,
  save-same, save-other, existing_result-rows,
}
use marine_time_motion_platf.Analytics.Metric.Engine.{
  compute_result, compute_calls, compute_single_definition,
}
use marine_time_motion_platf.Analytics.Metric.Engine.Placed.{compute_result-in_slot}

abbrev pub has_call : ℕ → List VesselCall → Bool
has_call c vcs = any (λ vc. c == vc.id) vcs

-- The ids of the calls are distinct, as those of a query are.
abbrev pub IsDistinct : List VesselCall → Type 0
IsDistinct [] = Unit
IsDistinct (vc ∷ vcs) = (has_call vc.id vcs ≡ false) × IsDistinct vcs

module _ (e : AnalyticsEngine) (d : LeadTimeDefinition) (existing : ℕ → Option LeadTimeResult)
    (placed : (c : ℕ) (old : LeadTimeResult)
      → existing c ≡ some old
      → in_slot d.id c old ≡ true) where
  -- The calls' slots hold what the loop takes them to hold.
  abbrev IsRead : List VesselCall → List LeadTimeResult → Type 0
  IsRead vcs table = (c : ℕ) → has_call c vcs ≡ true → rows_at d.id c table ≡ row_list (existing c)

  -- The result of a call, and that it is the one row of its slot.
  abbrev IsStored : VesselCall → List LeadTimeResult → List LeadTimeResult → Type 0
  IsStored vc results table =
      (row : LeadTimeResult) × In row results
      × (compute_result e d vc (existing vc.id) ≡ ok row)
      × (rows_at d.id vc.id table ≡ row ∷ [])

  IsStored-cons :
      (vc : VesselCall) (vcs : List VesselCall) (row : LeadTimeResult)
      (rows table : List LeadTimeResult)
      → compute_result e d vc (existing vc.id) ≡ ok row
      → rows_at d.id vc.id table ≡ row ∷ []
      → ((vc' : VesselCall) → In vc' vcs → IsStored vc' rows table)
      → (vc' : VesselCall) → In vc' (vc ∷ vcs)
      → IsStored vc' (row ∷ rows) table
  IsStored-cons vc vcs row rows table h at stored vc' (inl is) =
      subst (λ v. IsStored v (row ∷ rows) table) (sym is) (row, inl refl, h, at)
  IsStored-cons vc vcs row rows table h at stored vc' (inr i) =
      let (row', j, done, alone) = stored vc' i in (row', inr j, done, alone)

  IsRead-saved :
      (vc : VesselCall) (vcs : List VesselCall) (row : LeadTimeResult) (table : List LeadTimeResult)
      → has_call vc.id vcs ≡ false
      → in_slot d.id vc.id row ≡ true
      → IsRead (vc ∷ vcs) table
      → IsRead vcs (save d.id vc.id (existing vc.id) row table)
  IsRead-saved vc vcs row table fresh at read c h =
      let other : ((d.id == d.id) && (vc.id == c)) ≡ false = elim (Bool-cases (vc.id == c)) [
        | inr differ ↦ ground arith
        | inl same ↦
            let is : vc.id ≡ c = ground arith in
            absurd (ground (arith, subst (λ i. has_call i vcs ≡ false) is fresh))
      ] in
      save-other d.id vc.id d.id c (existing vc.id) row table at other ∙ read c (ground arith)

  compute_calls-slots :
      (vcs : List VesselCall) (table results table' : List LeadTimeResult)
      → IsDistinct vcs
      → IsRead vcs table
      → compute_calls e d existing vcs table ≡ ok (results, table')
      → ((vc : VesselCall) → In vc vcs → IsStored vc results table')
        × ((d' c : ℕ)
            → ((d.id == d') && has_call c vcs) ≡ false
            → rows_at d' c table' ≡ rows_at d' c table)
        × (map (λ r. r.vessel_call_id) results ≡ map (λ vc. vc.id) vcs)
  unfolding compute_calls
  compute_calls-slots [] table results table' distinct read done =
      (λ vc i. absurd i, λ d' c h. ground arith, ground arith)
  compute_calls-slots (vc ∷ vcs) table results table' (fresh, distinct) read done =
      elim (Result-cases (compute_result e d vc (existing vc.id))) [
        | inl (x, h) ↦ absurd (ground arith)
        | inr (row, h) ↦
            let table1 = save d.id vc.id (existing vc.id) row table in
            let at = compute_result-in_slot e d vc (existing vc.id) row (placed vc.id) h in
            elim (Result-cases (compute_calls e d existing vcs table1)) [
              | inl (x, g) ↦ absurd (ground arith)
              | inr ((rows, table2), g) ↦
                  let rest =
                    compute_calls-slots vcs table1 rows table2 distinct
                      (IsRead-saved vc vcs row table fresh at read) g in
                  let (stored, kept, ids) = rest in
                  let alone =
                    kept d.id vc.id (ground arith)
                    ∙ save-same d.id vc.id (existing vc.id) row table at
                        (read vc.id (ground arith)) in
                  let results_are : results ≡ row ∷ rows = ground arith in
                  let table_is : table' ≡ table2 = ground arith in
                  (
                    λ vc' i. subst (IsStored vc' results) (sym table_is) (
                        subst (λ rs. IsStored vc' rs table2) (sym results_are)
                          (IsStored-cons vc vcs row rows table2 h alone stored vc' i)),
                    λ d' c other.
                        ap (rows_at d' c) table_is
                        ∙ kept d' c (ground arith)
                        ∙ save-other d.id vc.id d' c (existing vc.id) row table at (ground arith),
                    ap (map (λ r. r.vessel_call_id)) results_are
                        ∙ ap₂ (λ c cs. c ∷ cs) ((in_slot_iff d.id vc.id row).0 at).1 ids,
                  )
            ]
      ]

has_call-ids :
    (c : ℕ) (vcs : List VesselCall) → any (λ i. c == i) (map (λ vc. vc.id) vcs) ≡ has_call c vcs
has_call-ids c [] = refl
has_call-ids c (vc ∷ vcs) = ground (arith, has_call-ids c vcs)

first_only-idempotent :
    (rows : List LeadTimeResult) → first_only (first_only rows) ≡ first_only rows
first_only-idempotent [] = refl
first_only-idempotent (row ∷ rows) = refl

row_list-injective : (a b : Option LeadTimeResult) → row_list a ≡ row_list b → a ≡ b
row_list-injective none none h = refl
row_list-injective none (some b) h = absurd (ground arith)
row_list-injective (some a) none h = absurd (ground arith)
row_list-injective (some a) (some b) h = ground arith

pub In-has_call : (vc : VesselCall) (vcs : List VesselCall) → In vc vcs → has_call vc.id vcs ≡ true
In-has_call vc [] i = absurd i
In-has_call vc (w ∷ vcs) (inl h) = ground (arith, ap (λ v. v.id) h)
In-has_call vc (w ∷ vcs) (inr i) = ground (arith, In-has_call vc vcs i)

module _ (d : LeadTimeDefinition) (vcs : List VesselCall) (table : List LeadTimeResult) (c : ℕ)
    (asked : has_call c vcs ≡ true) where
  abbrev kept_rows : List LeadTimeResult
  kept_rows = without_duplicates d.id (map (λ vc. vc.id) vcs) table

  kept_rows-first_only : rows_at d.id c kept_rows ≡ first_only (rows_at d.id c table)
  kept_rows-first_only =
      without_duplicates-queried d.id c (map (λ vc. vc.id) vcs) table (has_call-ids c vcs ∙ asked)

  row_list-kept : row_list (existing_result d.id c kept_rows) ≡ first_only (rows_at d.id c table)
  row_list-kept =
      existing_result-rows d.id c kept_rows
      ∙ ap first_only kept_rows-first_only
      ∙ first_only-idempotent (rows_at d.id c table)

  kept_rows-read : rows_at d.id c kept_rows ≡ row_list (existing_result d.id c kept_rows)
  kept_rows-read = kept_rows-first_only ∙ sym row_list-kept

  existing_result-kept : existing_result d.id c kept_rows ≡ existing_result d.id c table
  existing_result-kept =
      row_list-injective _ _ (row_list-kept ∙ sym (existing_result-rows d.id c table))

-- What a computation of one definition leaves: for each call a result that it returns, the only row of
-- the definition for the call, computed from the first row that was there.
abbrev pub IsOne :
    AnalyticsEngine
    → LeadTimeDefinition
    → (table : List LeadTimeResult) → VesselCall
    → (results table' : List LeadTimeResult) → Type 0
IsOne e d table vc results table' =
    (row : LeadTimeResult) × In row results
    × (compute_result e d vc (existing_result d.id vc.id table) ≡ ok row)
    × (rows_at d.id vc.id table' ≡ row ∷ [])

-- Whatever duplicates the table held, a computation of one definition over calls with distinct ids
-- returns one result for each call, in their order; each result was computed from the first row that the
-- table held for its call, and is from then on the only row of the definition for that call; the rows of
-- other definitions and of other calls stay as they were.
pub compute_single_definition-IsOne :
    (e : AnalyticsEngine) (d : LeadTimeDefinition) (vcs : List VesselCall)
    (table results table' : List LeadTimeResult)
    → IsDistinct vcs
    → compute_single_definition e d vcs table ≡ ok (results, table')
    → (map (λ r. r.vessel_call_id) results ≡ map (λ vc. vc.id) vcs)
      × ((vc : VesselCall) → In vc vcs → IsOne e d table vc results table')
      × ((d' c : ℕ)
          → ((d.id == d') && has_call c vcs) ≡ false
          → rows_at d' c table' ≡ rows_at d' c table)
unfolding compute_single_definition
compute_single_definition-IsOne e d vcs table results table' distinct done =
    let calls = map (λ vc. vc.id) vcs in
    let kept = without_duplicates d.id calls table in
    let (stored, unchanged, ids) =
      compute_calls-slots e d (λ c. existing_result d.id c kept)
        (λ c old h. (find-In (in_slot d.id c) kept old h).1) vcs kept results table' distinct
        (kept_rows-read d vcs table) done in
    (
      ids,
      λ vc i.
          let (row, j, made, alone) = stored vc i in
          let same = existing_result-kept d vcs table vc.id (In-has_call vc vcs i) in
          (row, j, subst (λ x. compute_result e d vc x ≡ ok row) same made, alone),
      λ d' c other.
          unchanged d' c other
          ∙ without_duplicates-other d.id d' c calls table
              (subst (λ b. ((d.id == d') && b) ≡ false) (sym (has_call-ids c vcs)) other),
    )
