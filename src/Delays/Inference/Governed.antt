-- ===== src/Delays/Inference/Governed.antt =====
-- What an inference writes and what it leaves alone.
use marine_time_motion_platf.Prelude.{
  ℕ, ◌≤◌, ◌<◌, leb, ◌⊎◌, ◌≡◌, refl, ap, subst, ◌∙◌, inl, inr, Bool, true, false, ◌&&◌, not, List,
  [], ◌∷◌, ◌++◌, map, filter, filter-append, append_nil, some, Bool-cases, arith,
}
use marine_time_motion_platf.Prelude.Text.{Text, text, ◌=ᵗ◌, =ᵗ_iff}
use marine_time_motion_platf.Delays.Delay.{
  inferred, Evidence, Delay, DelayAllocation, DelayStore, ok, Result-cases, delay_by_id,
  delay_by_id-id, update_delay, IsRewritten, update_delay-IsRewritten, update_where, is_confirmed,
}
use marine_time_motion_platf.Delays.Inference.{
  Service, evidence_for, is_inferred_of, new_allocation, revise_allocation, mark_inferred,
  Inference, declined_confirmed_preserved, inferred_success, store_inference, infer_delay_cause,
}

module _ (p : DelayAllocation → Bool) (f : DelayAllocation → DelayAllocation) where
  pub filter-update_where :
      (xs : List DelayAllocation)
      → ((a : DelayAllocation) → p (f a) ≡ p a)
      → filter p (update_where p f xs) ≡ map f (filter p xs)
  filter-update_where [] keeps = refl
  filter-update_where (a ∷ xs) keeps = elim (Bool-cases (p a)) [
    | inl chosen ↦
        rw chosen (rw (keeps a) (rw chosen (ap (◌∷◌ (f a)) (filter-update_where xs keeps))))
    | inr other ↦ rw other (rw other (filter-update_where xs keeps))
  ]

  pub update_where_others :
      (xs : List DelayAllocation)
      → ((a : DelayAllocation) → p (f a) ≡ p a)
      → filter (λ a. not (p a)) (update_where p f xs) ≡ filter (λ a. not (p a)) xs
  update_where_others [] keeps = refl
  update_where_others (a ∷ xs) keeps = elim (Bool-cases (p a)) [
    | inl chosen ↦ rw chosen (rw (keeps a) (rw chosen (update_where_others xs keeps)))
    | inr other ↦ rw other (rw other (ap (◌∷◌ a) (update_where_others xs keeps)))
  ]

-- A delay before and after it is marked as inferred.
pub record IsMarked (e : Evidence) (d d' : Delay) : Type 0 where
  pub status : d'.cause_status ≡ some (text "Inferred")
  pub category : d'.canonical_category ≡ some e.proposed_category
  pub reason : d'.delay_reason ≡ some (inferred e.proposed_cause)
  pub confident :
      ((60 ≤ e.confidence) × (d'.confidence ≡ text "Medium"))
      ⊎ ((e.confidence < 60) × (d'.confidence ≡ text "Low"))
  pub id : d'.id ≡ d.id
  pub vessel_call : d'.vessel_call_id ≡ d.vessel_call_id
  pub stage : d'.movement_stage ≡ d.movement_stage
  pub total : d'.total_duration_hours ≡ d.total_duration_hours
  pub resolution : d'.resolution_status ≡ d.resolution_status
  pub mismatch : d'.has_reconciliation_mismatch ≡ d.has_reconciliation_mismatch
  pub listed : d'.requires_reason_review ≡ d.requires_reason_review

mark_inferred-IsMarked : (e : Evidence) (d : Delay) → IsMarked e d (mark_inferred e d)
unfolding mark_inferred
mark_inferred-IsMarked e d = record {
  status = refl;
  category = refl;
  reason = refl;
  confident = elim (Bool-cases (leb 60 e.confidence)) [
    | inl enough ↦ inl (ground arith, rw enough refl)
    | inr low ↦ inr (ground arith, rw low refl)
  ];
  id = refl;
  vessel_call = refl;
  stage = refl;
  total = refl;
  resolution = refl;
  mismatch = refl;
  listed = refl;
}

-- The inferred cause of a delay, to be reviewed.
pub record IsProposed (e : Evidence) (a : DelayAllocation) : Type 0 where
  pub status : a.cause_status ≡ text "INFERRED"
  pub review : a.human_review_state ≡ text "PENDING_REVIEW"
  pub reason : a.reason ≡ some (inferred e.proposed_cause)
  pub category : a.canonical_category ≡ e.proposed_category
  pub cause : a.cause ≡ e.proposed_category
  pub confidence : a.confidence ≡ some e.confidence
  pub evidence : a.inference_evidence ≡ some e

pub record IsInferred (i : ℕ) (e : Evidence) (db db' : DelayStore) : Type 0 where
  pub delays : db'.delays ≡ update_delay i (mark_inferred e) db.delays
  pub marked : IsRewritten i (IsMarked e) db.delays db'.delays
  pub others :
      filter (λ a. not (is_inferred_of i a)) db'.allocations
      ≡ filter (λ a. not (is_inferred_of i a)) db.allocations
  pub proposal :
      (a : DelayAllocation) × (filter (is_inferred_of i) db'.allocations ≡ a ∷ []) × IsProposed e a

revise_keeps :
    (i : ℕ) (e : Evidence) (a : DelayAllocation)
    → is_inferred_of i (revise_allocation e a) ≡ is_inferred_of i a
unfolding is_inferred_of revise_allocation
revise_keeps i e a = refl

revised-IsProposed :
    (i : ℕ) (e : Evidence) (a : DelayAllocation)
    → is_inferred_of i a ≡ true
    → IsProposed e (revise_allocation e a)
unfolding is_inferred_of revise_allocation
revised-IsProposed i e a h = record {
  status = (=ᵗ_iff a.cause_status (text "INFERRED")).0 (ground arith);
  review = refl;
  reason = refl;
  category = refl;
  cause = refl;
  confidence = refl;
  evidence = refl;
}

pub first_passes :
    (p : DelayAllocation → Bool) (xs : List DelayAllocation) (a : DelayAllocation)
    → filter p xs ≡ a ∷ []
    → p a ≡ true
first_passes p [] a h = absurd (ground arith)
first_passes p (x ∷ xs) a h = elim (Bool-cases (p x)) [
  | inl here ↦ ground arith
  | inr other ↦ first_passes p xs a (ground arith)
]

module _ (new_id : ℕ) (actor : Text) (d : Delay) (e : Evidence) where
  new_allocation-is_inferred : is_inferred_of d.id (new_allocation new_id d e) ≡ true
  unfolding is_inferred_of new_allocation ◌=ᵗ◌
  new_allocation-is_inferred = ground arith

  new-IsProposed : IsProposed e (new_allocation new_id d e)
  unfolding new_allocation
  new-IsProposed = record {
    status = refl;
    review = refl;
    reason = refl;
    category = refl;
    cause = refl;
    confidence = refl;
    evidence = refl;
  }

  marked_lem :
      (db : DelayStore)
      → IsRewritten d.id (IsMarked e) db.delays (update_delay d.id (mark_inferred e) db.delays)
  marked_lem db =
      update_delay-IsRewritten d.id (IsMarked e) (mark_inferred e) db.delays
        (mark_inferred-IsMarked e)

  -- The allocations after an inference, by those that were inferred before.
  store_inference-IsInferred :
      (db db' : DelayStore) (old : List DelayAllocation)
      → store_inference new_id actor d e db ≡ ok db'
      → filter (is_inferred_of d.id) db.allocations ≡ old
      → IsInferred d.id e db db'
  unfolding store_inference
  store_inference-IsInferred db db' [] h before =
      let stored : db'.allocations ≡ db.allocations ++ new_allocation new_id d e ∷ [] =
        ground arith in
      record {
        delays = ground arith;
        marked = subst (IsRewritten d.id (IsMarked e) db.delays) (ground arith) (marked_lem db);
        others = rw stored (
            filter-append (λ a. not (is_inferred_of d.id a)) db.allocations _
            ∙ (rw new_allocation-is_inferred (append_nil _)));
        proposal = (
          new_allocation new_id d e,
          rw stored (
              filter-append (is_inferred_of d.id) db.allocations _
              ∙ rw (before, new_allocation-is_inferred)),
          new-IsProposed,
        );
      }
  store_inference-IsInferred db db' (a ∷ []) h before =
      let p = is_inferred_of d.id in
      let f = revise_allocation e in
      let stored : db'.allocations ≡ update_where p f db.allocations = ground arith in
      record {
        delays = ground arith;
        marked = subst (IsRewritten d.id (IsMarked e) db.delays) (ground arith) (marked_lem db);
        others = rw stored (update_where_others p f db.allocations (revise_keeps d.id e));
        proposal = (
          revise_allocation e a,
          rw stored
              (filter-update_where p f db.allocations (revise_keeps d.id e) ∙ ap (map f) before),
          revised-IsProposed d.id e a (first_passes p db.allocations a before),
        );
      }
  store_inference-IsInferred db db' (a ∷ b ∷ more) h before = absurd (ground arith)

-- What an inference for a delay with an id comes to.
abbrev pub Inferred : ℕ → List Service → Text → Bool → DelayStore → Inference → DelayStore → Type 0
Inferred i services actor force db declined_confirmed_preserved db' =
    (d : Delay) × (delay_by_id i db ≡ ok d)
    × (is_confirmed d.cause_status ≡ true)
    × (force ≡ false)
    × (db' ≡ db)
Inferred i services actor force db (inferred_success e) db' =
    (d : Delay) × (delay_by_id i db ≡ ok d)
    × ((is_confirmed d.cause_status && not force) ≡ false)
    × (e ≡ evidence_for actor services d)
    × IsInferred i e db db'

-- An inference that goes through either declines, exactly where the cause is confirmed and it is not
-- forced, and then changes nothing; or it marks the delay as inferred, with the proposed category and
-- reason and a medium confidence exactly from 0.6, changes nothing else of it and leaves every other
-- delay as it is, the delay has one inferred allocation, which carries the proposal and waits for review, and
-- all other allocations, the confirmed ones of the same delay too, stay as they are and in their order.
pub infer_delay_cause-Inferred :
    (new_id : ℕ) (services : List Service) (i : ℕ) (actor : Text) (force : Bool)
    (db db' : DelayStore) (r : Inference)
    → infer_delay_cause new_id services i actor force db ≡ ok (r, db')
    → Inferred i services actor force db r db'
unfolding infer_delay_cause
infer_delay_cause-Inferred new_id services i actor force db db' r h =
    elim (Result-cases (delay_by_id i db)) [
      | inr (e, missing) ↦ absurd (ground arith)
      | inl (d, found) ↦ elim (Bool-cases (is_confirmed d.cause_status && not force)) [
        | inl keep ↦
            let declined : declined_confirmed_preserved ≡ r = ground arith in
            let same : db' ≡ db = ground arith in
            subst (λ x. Inferred i services actor force db x db') declined
              (d, found, ground arith, ground arith, same)
        | inr go ↦
            let e = evidence_for actor services d in
            elim (Result-cases (store_inference new_id actor d e db)) [
              | inr (x, refused) ↦ absurd (ground arith)
              | inl (stored, done) ↦
                  let success : inferred_success e ≡ r = ground arith in
                  let last : stored ≡ db' = ground arith in
                  subst (λ x. Inferred i services actor force db x db') success
                    (
                      d,
                      found,
                      go,
                      refl,
                      subst (λ k. IsInferred k e db db') (delay_by_id-id i db d found)
                          (store_inference-IsInferred new_id actor d e db db' _ (done ∙ ap ok last)
                            refl),
                    )
            ]
      ]
    ]
