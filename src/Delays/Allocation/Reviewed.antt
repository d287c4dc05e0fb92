-- ===== src/Delays/Allocation/Reviewed.antt =====
-- What a review of a reason leaves in the tables, and what an inference makes of it afterwards.
use marine_time_motion_platf.Prelude.{
  ℕ, ◌⊎◌, ◌≢◌, Bool-cases, ◌≡◌, refl, ap, subst, ◌∙◌, inl, inr, true, false, not, List, [], ◌∷◌,
  ◌++◌, map, filter, filter-append, append_nil, some, arith,
}
use marine_time_motion_platf.Prelude.Text.{Text, text, =ᵗ_iff}
use marine_time_motion_platf.Delays.Delay.{
  given, inferred, Evidence, Delay, DelayAllocation, DelayStore, ok, Result-cases, delay_by_id,
  delay_by_id-id, delay_by_id-update_delay, update_delay, IsRewritten, update_delay-IsRewritten,
  update_where, is_confirmed,
}
use marine_time_motion_platf.Delays.Inference.{
  Service, mark_inferred, Inference, declined_confirmed_preserved, inferred_success,
  infer_delay_cause,
}
use marine_time_motion_platf.Delays.Inference.Governed.{
  filter-update_where, update_where_others, Inferred, infer_delay_cause-Inferred,
}
use marine_time_motion_platf.Delays.Allocation.{
  Detail, get_delay_detail, Review, is_approved, review_delay, is_primary_of, review_allocation,
  reviewed_allocation, store_review, review_delay_reason,
}

-- A delay before and after a review of its reason.
pub record IsSettled (r : Review) (d d' : Delay) : Type 0 where
  pub category : d'.canonical_category ≡ some r.canonical_category
  pub reason : d'.delay_reason ≡ some (given r.reason)
  pub listed : d'.requires_reason_review ≡ false
  pub resolution :
      ((r.decision ≡ text "APPROVED") × (d'.resolution_status ≡ text "Closed"))
      ⊎ ((r.decision ≢ text "APPROVED") × (d'.resolution_status ≡ text "Under Review"))
  pub id : d'.id ≡ d.id
  pub vessel_call : d'.vessel_call_id ≡ d.vessel_call_id
  pub stage : d'.movement_stage ≡ d.movement_stage
  pub total : d'.total_duration_hours ≡ d.total_duration_hours
  pub status : d'.cause_status ≡ d.cause_status
  pub confidence : d'.confidence ≡ d.confidence
  pub mismatch : d'.has_reconciliation_mismatch ≡ d.has_reconciliation_mismatch

review_delay-IsSettled : (r : Review) (d : Delay) → IsSettled r d (review_delay r d)
unfolding review_delay
review_delay-IsSettled r d = record {
  category = refl;
  reason = refl;
  listed = refl;
  resolution = elim (Bool-cases (is_approved r)) [
    | inl approved ↦ inl ((=ᵗ_iff _ _).0 approved, rw approved refl)
    | inr refused ↦ inr (
      λ same. absurd (ground (arith, (=ᵗ_iff r.decision (text "APPROVED")).1 same)),
      rw refused refl,
    )
  ];
  id = refl;
  vessel_call = refl;
  stage = refl;
  total = refl;
  status = refl;
  confidence = refl;
  mismatch = refl;
}

-- The allocation that carries the decision.
pub record IsDecided (r : Review) (a : DelayAllocation) : Type 0 where
  pub category : a.canonical_category ≡ r.canonical_category
  pub reason : a.reason ≡ some (given r.reason)
  pub review : a.human_review_state ≡ r.decision
  pub cause : a.cause ≡ r.canonical_category
  pub confirmed : r.decision ≡ text "APPROVED" → a.cause_status ≡ text "CONFIRMED"

pub record IsReviewed (i : ℕ) (r : Review) (db db' : DelayStore) : Type 0 where
  pub delays : db'.delays ≡ update_delay i (review_delay r) db.delays
  pub settled : IsRewritten i (IsSettled r) db.delays db'.delays
  pub others :
      filter (λ a. not (is_primary_of i a)) db'.allocations
      ≡ filter (λ a. not (is_primary_of i a)) db.allocations
  pub primary :
      (a : DelayAllocation) × (filter (is_primary_of i) db'.allocations ≡ a ∷ []) × IsDecided r a

review_keeps :
    (i : ℕ) (r : Review) (a : DelayAllocation)
    → is_primary_of i (review_allocation r a) ≡ is_primary_of i a
unfolding is_primary_of review_allocation
review_keeps i r a = refl

module _ (new_id : ℕ) (r : Review) (d : Delay) where
  reviewed_allocation-is_primary : is_primary_of d.id (reviewed_allocation new_id r d) ≡ true
  unfolding is_primary_of reviewed_allocation
  reviewed_allocation-is_primary = ground arith

  reviewed_allocation-IsDecided : IsDecided r (reviewed_allocation new_id r d)
  unfolding reviewed_allocation
  reviewed_allocation-IsDecided = record {
    category = refl;
    reason = refl;
    review = refl;
    cause = refl;
    confirmed = λ h. rw ((=ᵗ_iff r.decision (text "APPROVED")).1 h) refl;
  }

  review_allocation-IsDecided : (a : DelayAllocation) → IsDecided r (review_allocation r a)
  unfolding review_allocation
  review_allocation-IsDecided a = record {
    category = refl;
    reason = refl;
    review = refl;
    cause = refl;
    confirmed = λ h. rw ((=ᵗ_iff r.decision (text "APPROVED")).1 h) refl;
  }

  settled_lem :
      (db : DelayStore)
      → IsRewritten d.id (IsSettled r) db.delays (update_delay d.id (review_delay r) db.delays)
  settled_lem db =
      update_delay-IsRewritten d.id (IsSettled r) (review_delay r) db.delays
        (review_delay-IsSettled r)

  store_review-IsReviewed :
      (db db' : DelayStore) (old : List DelayAllocation)
      → store_review new_id r d db ≡ ok db'
      → filter (is_primary_of d.id) db.allocations ≡ old
      → IsReviewed d.id r db db'
  unfolding store_review
  store_review-IsReviewed db db' [] h before =
      let stored : db'.allocations ≡ db.allocations ++ reviewed_allocation new_id r d ∷ [] =
        ground arith in
      record {
        delays = ground arith;
        settled = subst (IsRewritten d.id (IsSettled r) db.delays) (ground arith) (settled_lem db);
        others = rw stored (
            filter-append (λ a. not (is_primary_of d.id a)) db.allocations _
            ∙ (rw reviewed_allocation-is_primary (append_nil _)));
        primary = (
          reviewed_allocation new_id r d,
          rw stored (
              filter-append (is_primary_of d.id) db.allocations _
              ∙ rw (before, reviewed_allocation-is_primary)),
          reviewed_allocation-IsDecided,
        );
      }
  store_review-IsReviewed db db' (a ∷ []) h before =
      let p = is_primary_of d.id in
      let f = review_allocation r in
      let stored : db'.allocations ≡ update_where p f db.allocations = ground arith in
      record {
        delays = ground arith;
        settled = subst (IsRewritten d.id (IsSettled r) db.delays) (ground arith) (settled_lem db);
        others = rw stored (update_where_others p f db.allocations (review_keeps d.id r));
        primary = (
          review_allocation r a,
          rw stored
              (filter-update_where p f db.allocations (review_keeps d.id r) ∙ ap (map f) before),
          review_allocation-IsDecided a,
        );
      }
  store_review-IsReviewed db db' (a ∷ b ∷ more) h before = absurd (ground arith)

-- A review that goes through gives the delay the category and the reason of the steward, takes it off
-- the list of missing reasons, closes it exactly if the decision is an approval and else keeps it under
-- review, and changes nothing else of it; the delay then has
-- one primary allocation, which carries the same and is confirmed by an approval; and no other delay
-- and no other allocation has changed.
pub review_delay_reason-IsReviewed :
    (new_id i : ℕ) (r : Review) (db db' : DelayStore) (detail : Detail)
    → review_delay_reason new_id i r db ≡ ok (detail, db')
    → IsReviewed i r db db'
unfolding review_delay_reason
review_delay_reason-IsReviewed new_id i r db db' detail h = elim (Result-cases (delay_by_id i db)) [
  | inr (e, missing) ↦ absurd (ground arith)
  | inl (d, found) ↦ elim (Result-cases (store_review new_id r d db)) [
    | inr (e, refused) ↦ absurd (ground arith)
    | inl (stored, done) ↦ elim (Result-cases (get_delay_detail d.id stored)) [
      | inr (e, gone) ↦ absurd (ground arith)
      | inl (shown, seen) ↦
          let last : stored ≡ db' = ground arith in
          subst (λ k. IsReviewed k r db db') (delay_by_id-id i db d found)
            (store_review-IsReviewed new_id r d db db' _ (done ∙ ap ok last) refl)
    ]
  ]
]

-- A review leaves the cause status of the delay as it is, so that an inference is not declined.
inferred_after :
    (i : ℕ) (r : Review) (services : List Service) (actor : Text) (db1 db2 : DelayStore)
    (result : Inference) (d : Delay)
    → delay_by_id i db1 ≡ ok (review_delay r d)
    → is_confirmed d.cause_status ≡ false
    → Inferred i services actor false db1 result db2
    → (e : Evidence) × (result ≡ inferred_success e)
      × (delay_by_id i db2 ≡ ok (mark_inferred e (review_delay r d)))
      × ((mark_inferred e (review_delay r d)).delay_reason ≡ some (inferred e.proposed_cause))
unfolding review_delay mark_inferred
inferred_after i r services actor db1 db2 declined_confirmed_preserved d found open_cause
      (d1, at, confirmed, unforced, same) =
    absurd (ground arith)
inferred_after i r services actor db1 db2 (inferred_success e) d found open_cause
      (d1, at, go, same, w) =
    (
      e,
      refl,
      delay_by_id-update_delay i (mark_inferred e) db1 db2 (review_delay r d) (λ x. refl) w.delays
          found,
      refl,
    )

-- The approval of a steward does not protect a reason. Where the cause of the delay is not marked as
-- confirmed before a review, any later inference that goes through, also an unforced one, proposes
-- another cause, and it replaces the reason that the steward approved.
pub review_then_infer :
    (new_id new_id' i : ℕ) (r : Review) (services : List Service) (actor : Text)
    (db db1 db2 : DelayStore) (detail : Detail) (result : Inference) (d : Delay)
    → delay_by_id i db ≡ ok d
    → is_confirmed d.cause_status ≡ false
    → review_delay_reason new_id i r db ≡ ok (detail, db1)
    → infer_delay_cause new_id' services i actor false db1 ≡ ok (result, db2)
    → (e : Evidence) × (result ≡ inferred_success e)
      × (delay_by_id i db2 ≡ ok (mark_inferred e (review_delay r d)))
      × ((mark_inferred e (review_delay r d)).delay_reason ≡ some (inferred e.proposed_cause))
review_then_infer new_id new_id' i r services actor db db1 db2 detail result d found open_cause
      reviewed inferred_then =
    inferred_after i r services actor db1 db2 result d
      (delay_by_id-update_delay i (review_delay r) db db1 d (λ x. unfold review_delay in refl)
        (review_delay_reason-IsReviewed new_id i r db db1 detail reviewed).delays found)
      open_cause
      (infer_delay_cause-Inferred new_id' services i actor false db1 db2 result inferred_then)
