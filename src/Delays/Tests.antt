-- ===== src/Delays/Tests.antt =====
-- A delay for want of a tug: its inference, its allocation to two causes, and its review.
use marine_time_motion_platf.Prelude.{
  ℕ, ◌≡◌, refl, ◌⊎◌, Bool, true, false, List, [], ◌∷◌, filter, ◌==◌, none, some,
}
use marine_time_motion_platf.Prelude.Int.{pos, ltb_ℤ}
use marine_time_motion_platf.Prelude.Text.{
  text, ◌=ᵗ◌, strip, lstrip, rstrip, is_space, lower, occurs, starts_with,
}
use marine_time_motion_platf.Delays.Category.{map_to_canonical_category, mentions, or_empty}
use marine_time_motion_platf.Delays.Category.Canonical.{
  IsCanonical, map_to_canonical_category-IsCanonical,
}
use marine_time_motion_platf.Delays.Delay.{
  inferred, Evidence, Delay, DelayStore, Error, exceeds_total, ok, err, delay_by_id, is_confirmed,
  delay_cause_inferred,
}
use marine_time_motion_platf.Delays.Inference.{
  Service, serves, observe, observe_service, observe_all, exceeds, evidence_for, mark_inferred,
  is_inferred_of, new_allocation, Inference, inferred_success, infer_delay_cause,
}
use marine_time_motion_platf.Delays.Inference.Proposals.{IsSound, evidence_for-IsSound}
use marine_time_motion_platf.Delays.Inference.Governed.{Inferred, infer_delay_cause-Inferred}
use marine_time_motion_platf.Delays.Allocation.{
  AllocationData, sum_hours, limit, Detail, Review, review_delay, reviewed_allocation,
  allocate_causes, review_delay_reason,
}
use marine_time_motion_platf.Delays.Allocation.Allocated.{IsAllocated, allocate_causes-IsAllocated}
use marine_time_motion_platf.Delays.Allocation.Reviewed.{
  IsReviewed, review_delay_reason-IsReviewed, review_then_infer,
}
use marine_time_motion_platf.Delays.Timings.{arrival_inward, Request, timing_of, frequency_of}
use marine_time_motion_platf.Delays.Timings.Late.{IsGoverned, frequency_of-IsGoverned}

mapped :
    map_to_canonical_category (some (text "Marine Service")) (some (text "Late TUG at berth"))
    ≡ text "Tug"
unfolding map_to_canonical_category mentions strip lstrip rstrip is_space lower occurs starts_with
mapped = refl

map_to_canonical_category-IsCanonical_example :
    IsCanonical (map_to_canonical_category (some (text "Marine")) none)
    × (IsCanonical (text "Pilot")
        → map_to_canonical_category (some (text "Pilot")) none ≡ text "Pilot")
map_to_canonical_category-IsCanonical_example =
    map_to_canonical_category-IsCanonical (some (text "Marine")) none (text "Pilot")

abbrev delay : Delay
delay = record {
  id = 5;
  vessel_call_id = 1;
  movement_stage = text "Arrival";
  total_duration_hours = pos 20000;
  delay_reason = none;
  canonical_category = none;
  cause_status = none;
  confidence = text "Low";
  resolution_status = text "Open";
  has_reconciliation_mismatch = false;
  requires_reason_review = true;
}

-- A tug that came half an hour late.
abbrev tug : Service
tug = record {
  vessel_call_id = 1;
  service_type = some (text "Tug Service");
  movement_type = some (text "Arrival");
  scheduled_time = some 0;
  served_time = some 1800000000;
}

abbrev db : DelayStore
db = record { delays = delay ∷ []; allocations = []; audit = [] }

abbrev evidence : Evidence
evidence = evidence_for (text "ai") (tug ∷ []) delay

tug_proposed : evidence.proposed_category ≡ text "Tug"
unfolding evidence_for observe_all observe_service observe serves exceeds or_empty lower occurs
    starts_with
tug_proposed = refl

evidence_for-IsSound_example :
    IsSound (text "arrival") (filter (λ (s : Service). s.vessel_call_id == 1) (tug ∷ [])) evidence
unfolding lower
evidence_for-IsSound_example = evidence_for-IsSound (text "ai") (tug ∷ []) delay

abbrev inferred_db : DelayStore
inferred_db = record {
  delays = mark_inferred evidence delay ∷ [];
  allocations = new_allocation 9 delay evidence ∷ [];
  audit = delay_cause_inferred (text "ai") 5 evidence ∷ [];
}

inference :
    infer_delay_cause 9 (tug ∷ []) 5 (text "ai") false db
    ≡ ok (inferred_success evidence, inferred_db)
unfolding infer_delay_cause is_confirmed ◌=ᵗ◌ lower is_inferred_of
inference = refl

infer_delay_cause-Inferred_example :
    Inferred 5 (tug ∷ []) (text "ai") false db (inferred_success evidence) inferred_db
infer_delay_cause-Inferred_example =
    infer_delay_cause-Inferred 9 (tug ∷ []) 5 (text "ai") false db inferred_db
      (inferred_success evidence) inference

abbrev row : ℕ → Bool → AllocationData
row hours primary = record {
  duration_hours = pos hours;
  is_primary = primary;
  reason = none;
  canonical_category = some (text "Tug");
  cause_status = text "CONFIRMED";
  confidence = some 100;
  inference_evidence = none;
  human_review_state = text "APPROVED";
}

abbrev two_causes : List AllocationData
two_causes = row 12000 true ∷ row 5000 true ∷ []

allocate_causes-IsAllocated_example :
    ((e : Error) × (allocate_causes 1 5 two_causes [] [] db ≡ err e)
      × ((delay_by_id 5 db ≡ err e)
          ⊎ ((d : Delay) × (delay_by_id 5 db ≡ ok d)
              × (e ≡ exceeds_total)
              × (ltb_ℤ (limit d) (sum_hours two_causes) ≡ true))))
    ⊎ ((d : Delay) × (detail : Detail) × (db' : DelayStore) × (delay_by_id 5 db ≡ ok d)
        × (allocate_causes 1 5 two_causes [] [] db ≡ ok (detail, db'))
        × IsAllocated d two_causes db detail db')
allocate_causes-IsAllocated_example = allocate_causes-IsAllocated 1 5 two_causes [] [] db

abbrev decision : Review
decision = record {
  canonical_category = text "Pilot";
  reason = text "Pilot was ill";
  actor = text "steward";
  decision = text "APPROVED";
  notes = none;
}

reviewed :
    (detail : Detail) × (db' : DelayStore) × (review_delay_reason 1 5 decision db
      ≡ ok (detail, db'))
unfolding review_delay_reason review_delay ◌=ᵗ◌
reviewed = (_, _, refl)

review_delay_reason-IsReviewed_example : IsReviewed 5 decision db reviewed.1
review_delay_reason-IsReviewed_example =
    review_delay_reason-IsReviewed 1 5 decision db reviewed.1 reviewed.0 reviewed.2

inferred_later :
    (result : Inference) × (db' : DelayStore) × (infer_delay_cause 2
        (tug ∷ [])
        5
        (text "ai")
        false
        reviewed.1
      ≡ ok (result, db'))
unfolding infer_delay_cause reviewed review_delay_reason review_delay is_confirmed is_inferred_of
    ◌=ᵗ◌ lower reviewed_allocation
inferred_later = (_, _, refl)

review_then_infer_example :
    (e : Evidence) × (inferred_later.0 ≡ inferred_success e)
    × (delay_by_id 5 inferred_later.1 ≡ ok (mark_inferred e (review_delay decision delay)))
    × ((mark_inferred e (review_delay decision delay)).delay_reason
        ≡ some (inferred e.proposed_cause))
unfolding is_confirmed
review_then_infer_example =
    review_then_infer 1 2 5 decision (tug ∷ []) (text "ai") db reviewed.1 inferred_later.1
      reviewed.0 inferred_later.0 delay refl refl reviewed.2 inferred_later.2

abbrev request : Request
request = record {
  id = 1;
  movement_type = some (text "ARRIVAL");
  service_type = text "Tug";
  submission_time = none;
  requested_time = none;
  scheduled_time = some 0;
  served_time = some 7200000000;
}

frequency_of-IsGoverned_example :
    IsGoverned arrival_inward
      (timing_of request ∷ [])
      (frequency_of (timing_of request ∷ []) arrival_inward)
frequency_of-IsGoverned_example = frequency_of-IsGoverned (timing_of request ∷ []) arrival_inward
