-- ===== src/Analytics/Metric/Table/Slots.antt =====
-- The rows of each slot of the table, a definition and a vessel call, after a write.
use marine_time_motion_platf.Prelude.{
  ℕ, ◌≡◌, ◌↔◌, refl, sym, subst, ◌∙◌, inl, inr, true, false, ◌&&◌, List, [], ◌∷◌, any, filter,
  filter-append, append_nil, ◌==◌, Option, none, some, Bool-cases, arith,
}
use marine_time_motion_platf.Analytics.Metric.{LeadTimeResult}
use marine_time_motion_platf.Analytics.Metric.Table.{
  in_slot, is_queried, drop_slot, without_duplicates, existing_result, replace, save,
}

abbrev pub rows_at : (definition call : ℕ) → List LeadTimeResult → List LeadTimeResult
rows_at d c rows = filter (in_slot d c) rows

-- The first row, if there is one.
abbrev pub first_only : List LeadTimeResult → List LeadTimeResult
first_only [] = []
first_only (row ∷ rows) = row ∷ []

abbrev pub row_list : Option LeadTimeResult → List LeadTimeResult
row_list none = []
row_list (some row) = row ∷ []

pub in_slot_iff :
    (d c : ℕ) (row : LeadTimeResult)
    → (in_slot d c row ≡ true) ↔ ((row.definition_id ≡ d) × (row.vessel_call_id ≡ c))
unfolding in_slot
in_slot_iff d c row = ground arith

drop_slot-same : (d c : ℕ) (rows : List LeadTimeResult) → rows_at d c (drop_slot d c rows) ≡ []
unfolding drop_slot
drop_slot-same d c [] = refl
drop_slot-same d c (row ∷ rows) = elim (Bool-cases (in_slot d c row)) [
  | inl h ↦ ground (arith, drop_slot-same d c rows)
  | inr h ↦ ground (arith, drop_slot-same d c rows)
]

drop_slot-other :
    (d c d' c' : ℕ) (rows : List LeadTimeResult)
    → ((d == d') && (c == c')) ≡ false
    → rows_at d' c' (drop_slot d c rows) ≡ rows_at d' c' rows
unfolding drop_slot
drop_slot-other d c d' c' [] other = refl
drop_slot-other d c d' c' (row ∷ rows) other =
    ground (arith, drop_slot-other d c d' c' rows other, in_slot_iff d c row, in_slot_iff d' c' row)

-- Every slot of the query keeps its first row.
pub without_duplicates-queried :
    (d c : ℕ) (calls : List ℕ) (rows : List LeadTimeResult)
    → any (λ i. c == i) calls ≡ true
    → rows_at d c (without_duplicates d calls rows) ≡ first_only (rows_at d c rows)
unfolding without_duplicates is_queried in_slot
without_duplicates-queried d c calls [] h = refl
without_duplicates-queried d c calls (row ∷ rows) h =
    let rest = without_duplicates d calls rows in
    let ih = without_duplicates-queried d c calls rows h in
    elim (Bool-cases (in_slot d c row)) [
      | inl here ↦
          let call_is = ((in_slot_iff d c row).0 here).1 in
          let asked : any (λ i. row.vessel_call_id == i) calls ≡ true =
            subst (λ j. any (λ i. j == i) calls ≡ true) (sym call_is) h in
          let dropped : rows_at d c (drop_slot d row.vessel_call_id rest) ≡ [] =
            subst (λ j. rows_at d c (drop_slot d j rest) ≡ []) (sym call_is)
              (drop_slot-same d c rest) in
          ground (arith, in_slot_iff d c row)
      | inr there ↦ elim (Bool-cases (is_queried d calls row)) [
        | inl asked ↦
            let other : ((d == d) && (row.vessel_call_id == c)) ≡ false =
              ground (arith, in_slot_iff d c row) in
            ground (arith, drop_slot-other d row.vessel_call_id d c rest other)
        | inr unasked ↦ ground arith
      ]
    ]

is_queried-other :
    (d d' c : ℕ) (calls : List ℕ) (row : LeadTimeResult)
    → is_queried d calls row ≡ true
    → ((d == d') && any (λ i. c == i) calls) ≡ false
    → ((d == d') && (row.vessel_call_id == c)) ≡ false
unfolding is_queried
is_queried-other d d' c calls row asked h =
    elim (Bool-cases ((d == d') && (row.vessel_call_id == c))) [
      | inr other ↦ other
      | inl same ↦
          let call_is : row.vessel_call_id ≡ c = ground arith in
          let found : any (λ i. row.vessel_call_id == i) calls ≡ true = ground arith in
          let found_c : any (λ i. c == i) calls ≡ true =
            subst (λ j. any (λ i. j == i) calls ≡ true) call_is found in
          absurd (ground arith)
    ]

-- Every other slot keeps its rows.
pub without_duplicates-other :
    (d d' c : ℕ) (calls : List ℕ) (rows : List LeadTimeResult)
    → ((d == d') && any (λ i. c == i) calls) ≡ false
    → rows_at d' c (without_duplicates d calls rows) ≡ rows_at d' c rows
unfolding without_duplicates is_queried
without_duplicates-other d d' c calls [] h = refl
without_duplicates-other d d' c calls (row ∷ rows) h =
    let rest = without_duplicates d calls rows in
    let ih = without_duplicates-other d d' c calls rows h in
    elim (Bool-cases (is_queried d calls row)) [
      | inl asked ↦ ground (
        arith,
        drop_slot-other d row.vessel_call_id d' c rest (is_queried-other d d' c calls row asked h),
      )
      | inr unasked ↦ ground arith
    ]

replace-absent :
    (d c : ℕ) (new : LeadTimeResult) (rows : List LeadTimeResult)
    → rows_at d c rows ≡ []
    → rows_at d c (replace d c new rows) ≡ []
unfolding replace
replace-absent d c new [] empty = refl
replace-absent d c new (row ∷ rows) empty = elim (Bool-cases (in_slot d c row)) [
  | inl here ↦ absurd (ground arith)
  | inr there ↦ ground (arith, replace-absent d c new rows)
]

replace-same :
    (d c : ℕ) (old new : LeadTimeResult) (rows : List LeadTimeResult)
    → in_slot d c new ≡ true
    → rows_at d c rows ≡ old ∷ []
    → rows_at d c (replace d c new rows) ≡ new ∷ []
unfolding replace
replace-same d c old new [] h one = absurd (ground arith)
replace-same d c old new (row ∷ rows) h one = elim (Bool-cases (in_slot d c row)) [
  | inl here ↦ ground (arith, replace-absent d c new rows)
  | inr there ↦ ground (arith, replace-same d c old new rows h)
]

replace-other :
    (d c d' c' : ℕ) (new : LeadTimeResult) (rows : List LeadTimeResult)
    → in_slot d c new ≡ true
    → ((d == d') && (c == c')) ≡ false
    → rows_at d' c' (replace d c new rows) ≡ rows_at d' c' rows
unfolding replace
replace-other d c d' c' new [] h other = refl
replace-other d c d' c' new (row ∷ rows) h other = ground (
  arith,
  replace-other d c d' c' new rows h other,
  in_slot_iff d c row,
  in_slot_iff d' c' row,
  in_slot_iff d c new,
  in_slot_iff d' c' new,
)

pub save-same :
    (d c : ℕ) (old : Option LeadTimeResult) (new : LeadTimeResult) (rows : List LeadTimeResult)
    → in_slot d c new ≡ true
    → rows_at d c rows ≡ row_list old
    → rows_at d c (save d c old new rows) ≡ new ∷ []
unfolding save
save-same d c none new rows h empty = filter-append (in_slot d c) rows (new ∷ []) ∙ ground arith
save-same d c (some old) new rows h one = replace-same d c old new rows h one

pub save-other :
    (d c d' c' : ℕ) (old : Option LeadTimeResult) (new : LeadTimeResult)
    (rows : List LeadTimeResult)
    → in_slot d c new ≡ true
    → ((d == d') && (c == c')) ≡ false
    → rows_at d' c' (save d c old new rows) ≡ rows_at d' c' rows
unfolding save
save-other d c d' c' none new rows h other =
    filter-append (in_slot d' c') rows (new ∷ [])
    ∙ ground (arith, append_nil (rows_at d' c' rows), in_slot_iff d c new, in_slot_iff d' c' new)
save-other d c d' c' (some old) new rows h other = replace-other d c d' c' new rows h other

pub existing_result-rows :
    (d c : ℕ) (rows : List LeadTimeResult)
    → row_list (existing_result d c rows) ≡ first_only (rows_at d c rows)
existing_result-rows d c [] = refl
existing_result-rows d c (row ∷ rows) = ground (arith, existing_result-rows d c rows)
