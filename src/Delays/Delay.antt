-- ===== src/Delays/Delay.antt =====
-- apps/api/models/canonical.py: delays and their allocations, with the audit log that the services of
-- delays write. Hours are in 1/10000, the digits that the services round to; confidences in 1/100.
use marine_time_motion_platf.Prelude.{
  ℕ, ◌≡◌, refl, ap, ◌∙◌, ◌⊎◌, inl, inr, Bool, false, List, [], ◌∷◌, map, find, ◌==◌, if◌then◌else◌,
  Option, none, some, Option-cases, Bool-cases, ==_iff, ◌≢◌, arith,
}
use marine_time_motion_platf.Prelude.Members.{find-In}
use marine_time_motion_platf.Prelude.Int.{ℤ}
use marine_time_motion_platf.Prelude.Text.{Text, text, ◌=ᵗ◌, lower}

-- What an inference proposes, with the hours that its text quotes.
pub data Proposal : Type 0 where
  unspecified arrival_congestion sailing_clearance coordination_wait : Proposal
  tug_late pilot_late berthing_late : ℕ → Proposal

pub data Factor : Type 0 where
  stage_is : Text → Factor
  tug_delayed pilot_delayed : ℕ → Text → Factor
  pilot_on_time tug_on_schedule mooring_lag positive_arrival_delay : Factor
  departure_delay no_service_delays departure_normal limited_telemetry : Factor

-- A reason as it was given, or as it was inferred and is marked so.
pub data Reason : Type 0 where
  given : Text → Reason
  inferred : Proposal → Reason

pub record Evidence : Type 0 where
  pub proposed_cause : Proposal
  pub proposed_category : Text
  pub confidence : ℕ
  pub supporting_factors : List Factor
  pub opposing_factors : List Factor
  pub inferred_by : Text

pub record Delay : Type 0 where
  pub id : ℕ
  pub vessel_call_id : ℕ
  pub movement_stage : Text
  pub total_duration_hours : ℤ
  pub delay_reason : Option Reason
  pub canonical_category : Option Text
  pub cause_status : Option Text
  pub confidence : Text
  pub resolution_status : Text
  pub has_reconciliation_mismatch : Bool
  pub requires_reason_review : Bool

pub record DelayAllocation : Type 0 where
  pub id : ℕ
  pub delay_id : ℕ
  pub cause : Text
  pub canonical_category : Text
  pub reason : Option Reason
  pub duration_hours : ℤ
  pub is_primary : Bool
  pub cause_status : Text
  pub confidence : Option ℕ
  pub inference_evidence : Option Evidence
  pub human_review_state : Text

pub data AuditEvent : Type 0 where
  delay_cause_inferred : (actor : Text) (delay_id : ℕ) → Evidence → AuditEvent
  causes_allocated :
      (actor : Text) (delay_id : ℕ) (total_duration : ℤ) (allocations_count : ℕ)
      (allocated_hours unallocated_hours : ℤ) (rationale : Text)
      → AuditEvent
  delay_reason_reviewed :
      (actor : Text) (delay_id : ℕ) (decision canonical_category reason : Text)
      (notes : Option Text)
      → AuditEvent

pub record DelayStore : Type 0 where
  pub delays : List Delay
  pub allocations : List DelayAllocation
  pub audit : List AuditEvent

-- `ValueError`s, and the error of `scalar_one_or_none` where two rows are found.
pub data Error : Type 0 where
  delay_not_found exceeds_total multiple_results_found : Error

pub data Result (A : Type 0) : Type 0 where
  ok : A → Result A
  err : Error → Result A

infixl 5 ◌>>=◌
abbrev pub ◌>>=◌ : {A B : Type 0} → Result A → (A → Result B) → Result B
ok a >>= f = f a
err e >>= f = err e

pub Result-cases :
    {A : Type 0} (r : Result A) → ((a : A) × (r ≡ ok a)) ⊎ ((e : Error) × (r ≡ err e))
Result-cases (ok a) = inl (a, refl)
Result-cases (err e) = inr (e, refl)

-- `scalar_one_or_none`
abbrev pub one_or_none : {A : Type 0} → List A → Result (Option A)
one_or_none [] = ok none
one_or_none (x ∷ []) = ok (some x)
one_or_none (x ∷ y ∷ xs) = err multiple_results_found

abbrev pub delay_by_id : ℕ → DelayStore → Result Delay
delay_by_id i db = elim (find (λ (d : Delay). d.id == i) db.delays) [
  | none ↦ err delay_not_found
  | some d ↦ ok d
]

pub delay_by_id-id : (i : ℕ) (db : DelayStore) (d : Delay) → delay_by_id i db ≡ ok d → d.id ≡ i
delay_by_id-id i db d h = elim (Option-cases (find (λ (x : Delay). x.id == i) db.delays)) [
  | inl nothing ↦ absurd (ground arith)
  | inr (c, found) ↦ ground (arith, (find-In (λ (x : Delay). x.id == i) db.delays c found).1)
]

abbrev pub update_delay : ℕ → (Delay → Delay) → List Delay → List Delay
update_delay i f delays = map (λ d. if d.id == i then f d else d) delays

-- A list of delays before and after: those with the id are related, and all others are as they were.
pub data IsRewritten (i : ℕ) (R : Delay → Delay → Type 0) : List Delay → List Delay → Type 0 where
  no_delays : IsRewritten i R [] []
  written :
      (d d' : Delay) (ds ds' : List Delay)
      → d.id ≡ i
      → R d d'
      → IsRewritten i R ds ds'
      → IsRewritten i R (d ∷ ds) (d' ∷ ds')
  left_alone :
      (d : Delay) (ds ds' : List Delay)
      → d.id ≢ i
      → IsRewritten i R ds ds'
      → IsRewritten i R (d ∷ ds) (d ∷ ds')

pub update_delay-IsRewritten :
    (i : ℕ) (R : Delay → Delay → Type 0) (f : Delay → Delay) (ds : List Delay)
    → ((d : Delay) → R d (f d))
    → IsRewritten i R ds (update_delay i f ds)
update_delay-IsRewritten i R f [] h = no_delays
update_delay-IsRewritten i R f (d ∷ ds) h =
    let rest = update_delay-IsRewritten i R f ds h in
    elim (Bool-cases (d.id == i)) [
      | inl hit ↦ rw hit (written d (f d) ds _ ((==_iff d.id i).0 hit) (h d) rest)
      | inr other ↦
          rw other
            (left_alone d ds _ (λ same. absurd (ground (arith, (==_iff d.id i).1 same))) rest)
    ]

-- Writes to the rows that a test selects.
abbrev pub update_where :
    (DelayAllocation → Bool)
    → (DelayAllocation → DelayAllocation)
    → List DelayAllocation
    → List DelayAllocation
update_where p f rows = map (λ a. if p a then f a else a) rows

-- `(cause_status or "").lower() == "confirmed"`
unfoldable pub is_confirmed : Option Text → Bool
is_confirmed none = false
is_confirmed (some t) = lower t =ᵗ text "confirmed"

-- A write that keeps the id, seen through `delay_by_id`.
find-update_delay :
    (i : ℕ) (f : Delay → Delay) (delays : List Delay) (d : Delay)
    → ((x : Delay) → (f x).id ≡ x.id)
    → find (λ (x : Delay). x.id == i) delays ≡ some d
    → find (λ (x : Delay). x.id == i) (update_delay i f delays) ≡ some (f d)
find-update_delay i f [] d keeps h = absurd (ground arith)
find-update_delay i f (x ∷ delays) d keeps h = elim (Bool-cases (x.id == i)) [
  | inl here ↦ ground (arith, keeps x)
  | inr other ↦ ground (arith, find-update_delay i f delays d keeps)
]

pub delay_by_id-update_delay :
    (i : ℕ) (f : Delay → Delay) (db db' : DelayStore) (d : Delay)
    → ((x : Delay) → (f x).id ≡ x.id)
    → db'.delays ≡ update_delay i f db.delays
    → delay_by_id i db ≡ ok d
    → delay_by_id i db' ≡ ok (f d)
delay_by_id-update_delay i f db db' d keeps e h =
    elim (Option-cases (find (λ (x : Delay). x.id == i) db.delays)) [
      | inl nothing ↦ absurd (ground arith)
      | inr (c, found) ↦
          let at =
            ap (find (λ (x : Delay). x.id == i)) e
            ∙ find-update_delay i f db.delays c keeps found in
          rw (at, delay_by_id) (ground arith)
    ]
