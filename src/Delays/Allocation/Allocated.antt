-- ===== src/Delays/Allocation/Allocated.antt =====
-- What an allocation of causes leaves in the tables.
use marine_time_motion_platf.Prelude.{
  ℕ, suc, ◌≢◌, ◌||◌, Bool, [], ◌∷◌, Option-cases, none, some, sym, subst, ◌≡◌, refl, ap, ◌∙◌, ◌⊎◌,
  inl, inr, true, false, not, List, filter, any, append_nil, length, ◌==◌, if◌then◌else◌,
  Bool-cases, filter-append, arith,
}
use marine_time_motion_platf.Prelude.Int.{◌+ℤ◌, ◌≤ℤ◌, ltb_ℤ}
use marine_time_motion_platf.Prelude.Text.{Text, non_empty, non_empty_iff}
use marine_time_motion_platf.Delays.Category.{map_to_canonical_category}
use marine_time_motion_platf.Delays.Delay.{
  Error, Delay, DelayAllocation, DelayStore, exceeds_total, ok, err, Result-cases, delay_by_id,
  delay_by_id-id,
}
use marine_time_motion_platf.Delays.Allocation.{
  AllocationData, given_reason, category_of, allocation_of, sum_hours, new_allocations, designate,
  belongs_to, allocated, unallocated, ranked, Detail, get_delay_detail, limit, store_allocations,
  allocate_causes,
}
use marine_time_motion_platf.Delays.Allocation.Totals.{
  primaries, filter_whole, filter_nothing, others_excluded, others_fixed, new_allocations-belong,
  designate-belong, allocated-new_allocations, length-new_allocations, primaries-designate,
  allocated-designate, length-designate, allocated-ranked, unallocated_rest,
}

-- An allocation of a delay that says what an entry says.
pub record IsGiven (delay : ℕ) (a : AllocationData) (x : DelayAllocation) : Type 0 where
  pub of_delay : x.delay_id ≡ delay
  pub hours : x.duration_hours ≡ a.duration_hours
  pub category :
      ((c : Text) × (a.canonical_category ≡ some c) × (c ≢ []) × (x.canonical_category ≡ c))
      ⊎ (((a.canonical_category ≡ none) ⊎ (a.canonical_category ≡ some []))
          × (x.canonical_category ≡ map_to_canonical_category none a.reason))
  pub cause : x.cause ≡ x.canonical_category
  pub reason : x.reason ≡ given_reason a.reason
  pub status : x.cause_status ≡ a.cause_status
  pub confidence : x.confidence ≡ a.confidence
  pub evidence : x.inference_evidence ≡ a.inference_evidence
  pub review : x.human_review_state ≡ a.human_review_state

-- One allocation for each entry, in their order.
pub data AreGiven (delay : ℕ) : List AllocationData → List DelayAllocation → Type 0 where
  none_given : AreGiven delay [] []
  one_given :
      (a : AllocationData) (x : DelayAllocation) (rows : List AllocationData)
      (xs : List DelayAllocation)
      → IsGiven delay a x
      → AreGiven delay rows xs
      → AreGiven delay (a ∷ rows) (x ∷ xs)

non_empty-false : (t : Text) → non_empty t ≡ false → t ≡ []
non_empty-false [] h = refl
non_empty-false (c ∷ cs) h = absurd (ground arith)

category_lem :
    (a : AllocationData)
    → ((k : Text) × (a.canonical_category ≡ some k) × (k ≢ []) × (category_of a ≡ k))
      ⊎ (((a.canonical_category ≡ none) ⊎ (a.canonical_category ≡ some []))
          × (category_of a ≡ map_to_canonical_category none a.reason))
unfolding category_of
category_lem a = elim (Option-cases a.canonical_category) [
  | inl missing ↦ inr (inl missing, ground arith)
  | inr (k, has) ↦ elim (Bool-cases (non_empty k)) [
    | inl some_text ↦ inl (k, has, (non_empty_iff k).0 some_text, ground arith)
    | inr no_text ↦ inr (inr (ground (arith, non_empty-false k no_text)), ground arith)
  ]
]

allocation_of-IsGiven :
    (new_id delay : ℕ) (is_primary : Bool) (a : AllocationData)
    → IsGiven delay a (allocation_of new_id delay is_primary a)
unfolding allocation_of
allocation_of-IsGiven new_id delay is_primary a = record {
  of_delay = refl;
  hours = refl;
  category = category_lem a;
  cause = refl;
  reason = refl;
  status = refl;
  confidence = refl;
  evidence = refl;
  review = refl;
}

new_allocations-AreGiven :
    (new_id delay : ℕ) (f : Bool) (rows : List AllocationData)
    → AreGiven delay rows (new_allocations new_id delay f rows)
unfolding new_allocations
new_allocations-AreGiven new_id delay f [] = none_given
new_allocations-AreGiven new_id delay f (a ∷ rows) =
    one_given a _ rows _ (allocation_of-IsGiven new_id delay _ a)
      (new_allocations-AreGiven (suc new_id) delay (f || a.is_primary) rows)

primary-IsGiven :
    (delay : ℕ) (a : AllocationData) (x : DelayAllocation)
    → IsGiven delay a x
    → IsGiven delay a (record x { is_primary = true })
primary-IsGiven delay a x h = record {
  of_delay = h.of_delay;
  hours = h.hours;
  category = h.category;
  cause = h.cause;
  reason = h.reason;
  status = h.status;
  confidence = h.confidence;
  evidence = h.evidence;
  review = h.review;
}

designate-AreGiven :
    (delay : ℕ) (f : Bool) (rows : List AllocationData) (xs : List DelayAllocation)
    → AreGiven delay rows xs
    → AreGiven delay rows (designate f xs)
unfolding designate
designate-AreGiven delay f [] [] none_given = none_given
designate-AreGiven delay f [] (x ∷ xs) h = elim h [ ]
designate-AreGiven delay true (a ∷ rows) [] h = elim h [ ]
designate-AreGiven delay false (a ∷ rows) [] h = elim h [ ]
designate-AreGiven delay true (a ∷ rows) (x ∷ xs) (one_given _ _ _ _ is rest) =
    one_given a x rows xs is rest
designate-AreGiven delay false (a ∷ rows) (x ∷ xs) (one_given _ _ _ _ is rest) =
    one_given a _ rows xs (primary-IsGiven delay a x is) rest

-- The tables and the detail after an allocation of rows to the delay `d`.
pub record IsAllocated (d : Delay) (rows : List AllocationData) (db : DelayStore) (detail : Detail)
    (db' : DelayStore) : Type 0 where
  pub delays : db'.delays ≡ db.delays
  pub others :
      filter (λ a. not (belongs_to d.id a)) db'.allocations
      ≡ filter (λ a. not (belongs_to d.id a)) db.allocations
  pub entries : AreGiven d.id rows (filter (belongs_to d.id) db'.allocations)
  pub count : length (filter (belongs_to d.id) db'.allocations) ≡ length rows
  pub primary :
      primaries (filter (belongs_to d.id) db'.allocations) ≡ (if length rows == 0 then 0 else 1)
  pub hours : allocated (filter (belongs_to d.id) db'.allocations) ≡ sum_hours rows
  pub limited : sum_hours rows ≤ℤ limit d
  pub shown : detail.allocated_duration_hours ≡ sum_hours rows
  pub rest :
      sum_hours rows ≤ℤ d.total_duration_hours
      → detail.allocated_duration_hours +ℤ detail.unallocated_duration_hours
        ≡ d.total_duration_hours

module _ (new_id : ℕ) (actor rationale : Text) (d : Delay) (rows : List AllocationData)
    (db : DelayStore) where
  abbrev fresh : List DelayAllocation
  fresh =
      designate (any (λ (a : AllocationData). a.is_primary) rows)
        (new_allocations new_id d.id false rows)

  stored_own :
      filter (belongs_to d.id) (store_allocations new_id actor rationale d rows db).allocations
      ≡ fresh
  unfolding store_allocations
  stored_own =
      filter-append (belongs_to d.id) (filter (λ a. not (belongs_to d.id a)) db.allocations) fresh
      ∙ (rw (others_excluded (belongs_to d.id) db.allocations) (
          filter_whole (belongs_to d.id) fresh
            (designate-belong d.id _ _ (new_allocations-belong d.id new_id false rows))))

  stored_others :
      filter
        (λ a. not (belongs_to d.id a))
        (store_allocations new_id actor rationale d rows db).allocations
      ≡ filter (λ a. not (belongs_to d.id a)) db.allocations
  unfolding store_allocations
  stored_others =
      filter-append (λ a. not (belongs_to d.id a))
        (filter (λ a. not (belongs_to d.id a)) db.allocations) fresh
      ∙ (rw
          (filter_nothing (belongs_to d.id) fresh
            (designate-belong d.id _ _ (new_allocations-belong d.id new_id false rows)))
          (append_nil _ ∙ others_fixed (belongs_to d.id) db.allocations))

  fresh-allocated : allocated fresh ≡ sum_hours rows
  fresh-allocated = allocated-designate _ _ ∙ allocated-new_allocations d.id new_id false rows

  get_delay_detail-amounts :
      (db' : DelayStore) (detail : Detail)
      → filter (belongs_to d.id) db'.allocations ≡ fresh
      → delay_by_id d.id db' ≡ ok d
      → get_delay_detail d.id db' ≡ ok detail
      → (detail.allocated_duration_hours ≡ sum_hours rows)
        × (detail.unallocated_duration_hours ≡ unallocated d.total_duration_hours (sum_hours rows))
  unfolding get_delay_detail
  get_delay_detail-amounts db' detail own found h =
      let sum = ap (λ x. allocated (ranked x)) own ∙ allocated-ranked fresh ∙ fresh-allocated in
      ground (arith, sum)

  store_allocations-IsAllocated :
      (detail : Detail)
      → delay_by_id d.id db ≡ ok d
      → ltb_ℤ (limit d) (sum_hours rows) ≡ false
      → get_delay_detail d.id (store_allocations new_id actor rationale d rows db) ≡ ok detail
      → IsAllocated d rows db detail (store_allocations new_id actor rationale d rows db)
  store_allocations-IsAllocated detail found le h =
      let db' = store_allocations new_id actor rationale d rows db in
      let (used, left) =
        get_delay_detail-amounts db' detail stored_own (unfold store_allocations in found) h in
      record {
        delays = unfold store_allocations in refl;
        others = stored_others;
        entries =
            subst (AreGiven d.id rows) (sym stored_own)
              (designate-AreGiven d.id _ rows _ (new_allocations-AreGiven new_id d.id false rows));
        count =
            ap length stored_own
            ∙ length-designate _ _
            ∙ length-new_allocations d.id new_id false rows;
        primary = ap primaries stored_own ∙ primaries-designate d.id new_id rows;
        hours = ap allocated stored_own ∙ fresh-allocated;
        limited = ground arith;
        shown = used;
        rest = λ within.
            rw (used, left) ((unallocated_rest d.total_duration_hours (sum_hours rows)).0 within);
      }

get_delay_detail-total :
    (i : ℕ) (db : DelayStore) (d : Delay)
    → delay_by_id i db ≡ ok d
    → (detail : Detail) × (get_delay_detail i db ≡ ok detail)
unfolding get_delay_detail
get_delay_detail-total i db d found = elim (Result-cases (get_delay_detail i db)) [
  | inl shown ↦ shown
  | inr (e, refused) ↦ absurd (ground arith)
]

-- An allocation of causes is refused exactly where there is no such delay, or the hours exceed the
-- total of the delay by more than 0.01. Otherwise the allocations of the delay are the given ones: one
-- for each entry, in their order, with its hours, reason, status, confidence, evidence and review state,
-- and with its category, or, where that is missing or empty, the one that its reason maps to. They have
-- the sum of the hours, and exactly one of them is primary, if there are any; those of other
-- delays and the delays stay as they are; and the returned detail shows the sum, which, unless it is
-- more than the total, makes up the total with the hours shown as not allocated.
pub allocate_causes-IsAllocated :
    (new_id i : ℕ) (rows : List AllocationData) (actor rationale : Text) (db : DelayStore)
    → ((e : Error) × (allocate_causes new_id i rows actor rationale db ≡ err e)
        × ((delay_by_id i db ≡ err e)
            ⊎ ((d : Delay) × (delay_by_id i db ≡ ok d)
                × (e ≡ exceeds_total)
                × (ltb_ℤ (limit d) (sum_hours rows) ≡ true))))
      ⊎ ((d : Delay) × (detail : Detail) × (db' : DelayStore) × (delay_by_id i db ≡ ok d)
          × (allocate_causes new_id i rows actor rationale db ≡ ok (detail, db'))
          × IsAllocated d rows db detail db')
unfolding allocate_causes
allocate_causes-IsAllocated new_id i rows actor rationale db =
    elim (Result-cases (delay_by_id i db)) [
      | inr (e, missing) ↦ inl (e, ground arith, inl missing)
      | inl (d, found) ↦ elim (Bool-cases (ltb_ℤ (limit d) (sum_hours rows))) [
        | inl more ↦ inl (exceeds_total, ground arith, inr (d, found, refl, more))
        | inr within ↦
            let db' = store_allocations new_id actor rationale d rows db in
            let at : delay_by_id d.id db ≡ ok d =
              ap (λ k. delay_by_id k db) (delay_by_id-id i db d found) ∙ found in
            let (detail, h) = get_delay_detail-total d.id db' d (unfold store_allocations in at) in
            inr (
              d,
              detail,
              db',
              found,
              ground arith,
              store_allocations-IsAllocated new_id actor rationale d rows db detail at within h,
            )
      ]
    ]
