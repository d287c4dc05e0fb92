-- ===== src/Delays/Allocation.antt =====
-- apps/api/services/delays/service.py: the causes that an analyst allocates to a delay, the review of
-- its reason, and the detail that both return.
pub mod Totals
pub mod Allocated
pub mod Reviewed
use marine_time_motion_platf.Prelude.{
  ℕ, suc, ◌+◌, Bool, true, false, ◌&&◌, ◌||◌, not, List, [], ◌∷◌, ◌++◌, filter, any, length, ◌==◌,
  if◌then◌else◌, Option, none, some,
}
use marine_time_motion_platf.Prelude.Int.{ℤ, pos, ◌+ℤ◌, ◌-ℤ◌, ltb_ℤ}
use marine_time_motion_platf.Prelude.Text.{Text, text, ◌=ᵗ◌, non_empty}
use marine_time_motion_platf.Delays.Category.{map_to_canonical_category}
use marine_time_motion_platf.Delays.Delay.{
  Reason, given, Evidence, Delay, DelayAllocation, causes_allocated, delay_reason_reviewed,
  DelayStore, exceeds_total, Result, ok, err, ◌>>=◌, one_or_none, delay_by_id, update_delay,
  update_where,
}

-- One entry of `allocations_data`, its defaults filled in.
pub record AllocationData : Type 0 where
  pub duration_hours : ℤ
  pub is_primary : Bool
  pub reason : Option Text
  pub canonical_category : Option Text
  pub cause_status : Text
  pub confidence : Option ℕ
  pub inference_evidence : Option Evidence
  pub human_review_state : Text

unfoldable pub sum_hours : List AllocationData → ℤ
sum_hours [] = pos 0
sum_hours (a ∷ rows) = a.duration_hours +ℤ sum_hours rows

-- `a_data.get("canonical_category") or map_to_canonical_category(None, rsn)`
unfoldable pub category_of : AllocationData → Text
category_of a = elim a.canonical_category [
  | none ↦ map_to_canonical_category none a.reason
  | some c ↦ if non_empty c then c else map_to_canonical_category none a.reason
]

abbrev pub given_reason : Option Text → Option Reason
given_reason none = none
given_reason (some t) = some (given t)

unfoldable pub allocation_of : ℕ → ℕ → Bool → AllocationData → DelayAllocation
allocation_of new_id delay is_primary a = record {
  id = new_id;
  delay_id = delay;
  cause = category_of a;
  canonical_category = category_of a;
  reason = given_reason a.reason;
  duration_hours = a.duration_hours;
  is_primary = is_primary;
  cause_status = a.cause_status;
  confidence = a.confidence;
  inference_evidence = a.inference_evidence;
  human_review_state = a.human_review_state;
}

-- Only the first of the entries that ask for it is primary.
unfoldable pub new_allocations : ℕ → ℕ → Bool → List AllocationData → List DelayAllocation
new_allocations new_id delay primary_found [] = []
new_allocations new_id delay primary_found (a ∷ rows) =
    allocation_of new_id delay (a.is_primary && not primary_found) a
    ∷ new_allocations (suc new_id) delay (primary_found || a.is_primary) rows

-- If none asks for it, the first is primary.
unfoldable pub designate : Bool → List DelayAllocation → List DelayAllocation
designate primary_found [] = []
designate primary_found (a ∷ rows) =
    (if primary_found then a else record a { is_primary = true }) ∷ rows

abbrev pub belongs_to : ℕ → DelayAllocation → Bool
belongs_to i a = a.delay_id == i

unfoldable pub allocated : List DelayAllocation → ℤ
allocated [] = pos 0
allocated (a ∷ rows) = a.duration_hours +ℤ allocated rows

-- `max(0.0, total - allocated)`
unfoldable pub unallocated : ℤ → ℤ → ℤ
unallocated total used = let rest = total -ℤ used in if ltb_ℤ rest (pos 0) then pos 0 else rest

-- `order_by(desc(is_primary), desc(duration_hours))`
unfoldable pub ranks_before : DelayAllocation → DelayAllocation → Bool
ranks_before a b =
    if a.is_primary
    then not b.is_primary || ltb_ℤ b.duration_hours a.duration_hours
    else not b.is_primary && ltb_ℤ b.duration_hours a.duration_hours

unfoldable pub insert_ranked : DelayAllocation → List DelayAllocation → List DelayAllocation
insert_ranked a [] = a ∷ []
insert_ranked a (b ∷ rows) =
    let rest = insert_ranked a rows in if ranks_before b a then b ∷ rest else a ∷ b ∷ rows

unfoldable pub ranked : List DelayAllocation → List DelayAllocation
ranked [] = []
ranked (a ∷ rows) = insert_ranked a (ranked rows)

pub record Detail : Type 0 where
  pub delay : Delay
  pub allocations : List DelayAllocation
  pub allocated_duration_hours : ℤ
  pub unallocated_duration_hours : ℤ

unfoldable pub get_delay_detail : ℕ → DelayStore → Result Detail
get_delay_detail i db = do
  d ← delay_by_id i db
  let rows = ranked (filter (belongs_to d.id) db.allocations)
  ok (record {
    delay = d;
    allocations = rows;
    allocated_duration_hours = allocated rows;
    unallocated_duration_hours = unallocated d.total_duration_hours (allocated rows);
  })

-- The total with the tolerance of 0.01 hours.
abbrev pub limit : Delay → ℤ
limit d = d.total_duration_hours +ℤ pos 100

unfoldable pub store_allocations :
    ℕ → Text → Text → Delay → List AllocationData → DelayStore → DelayStore
store_allocations new_id actor rationale d rows db = record db {
  allocations =
      filter (λ a. not (belongs_to d.id a)) db.allocations
      ++ designate (any (λ (a : AllocationData). a.is_primary) rows)
          (new_allocations new_id d.id false rows);
  audit =
      db.audit
      ++ causes_allocated actor d.id d.total_duration_hours (length rows) (sum_hours rows)
          (unallocated d.total_duration_hours (sum_hours rows)) rationale
        ∷ [];
}

unfoldable pub allocate_causes :
    ℕ → ℕ → List AllocationData → Text → Text → DelayStore → Result (Detail × DelayStore)
unfolding store_allocations get_delay_detail
allocate_causes new_id i rows actor rationale db = do
  d ← delay_by_id i db
  let db' = store_allocations new_id actor rationale d rows db
  if ltb_ℤ (limit d) (sum_hours rows)
      then err exceeds_total
      else (get_delay_detail d.id db' >>= λ detail. ok (detail, db'))

-- What a steward decides on a reason.
pub record Review : Type 0 where
  pub canonical_category : Text
  pub reason : Text
  pub actor : Text
  pub decision : Text
  pub notes : Option Text

abbrev pub is_approved : Review → Bool
is_approved r = r.decision =ᵗ text "APPROVED"

unfoldable pub review_delay : Review → Delay → Delay
review_delay r d = record d {
  canonical_category = some r.canonical_category;
  delay_reason = some (given r.reason);
  requires_reason_review = false;
  resolution_status = if is_approved r then text "Closed" else text "Under Review";
}

unfoldable pub is_primary_of : ℕ → DelayAllocation → Bool
is_primary_of i a = (a.delay_id == i) && a.is_primary

unfoldable pub review_allocation : Review → DelayAllocation → DelayAllocation
review_allocation r a = record a {
  canonical_category = r.canonical_category;
  cause = r.canonical_category;
  reason = some (given r.reason);
  human_review_state = r.decision;
  cause_status = if is_approved r then text "CONFIRMED" else a.cause_status;
}

unfoldable pub reviewed_allocation : ℕ → Review → Delay → DelayAllocation
reviewed_allocation new_id r d = record {
  id = new_id;
  delay_id = d.id;
  cause = r.canonical_category;
  canonical_category = r.canonical_category;
  reason = some (given r.reason);
  duration_hours = d.total_duration_hours;
  is_primary = true;
  cause_status = if is_approved r then text "CONFIRMED" else text "INFERRED";
  confidence = some 100;
  inference_evidence = none;
  human_review_state = r.decision;
}

unfoldable pub store_review : ℕ → Review → Delay → DelayStore → Result DelayStore
store_review new_id r d db = do
  old ← one_or_none (filter (is_primary_of d.id) db.allocations)
  ok (record {
    delays = update_delay d.id (review_delay r) db.delays;
    allocations = elim old [
      | none ↦ db.allocations ++ reviewed_allocation new_id r d ∷ []
      | some a ↦ update_where (is_primary_of d.id) (review_allocation r) db.allocations
    ];
    audit =
        db.audit
        ++ delay_reason_reviewed r.actor d.id r.decision r.canonical_category r.reason r.notes ∷ [];
  })

unfoldable pub review_delay_reason : ℕ → ℕ → Review → DelayStore → Result (Detail × DelayStore)
unfolding store_review get_delay_detail
review_delay_reason new_id i r db = do
  d ← delay_by_id i db
  db' ← store_review new_id r d db
  detail ← get_delay_detail d.id db'
  ok (detail, db')
