-- ===== src/Journey/Occurrence.antt =====
-- apps/api/models/canonical.py and models/journey.py: observed events and the decisions on them.
-- Ids are only compared, so they are naturals. Times are in microseconds, confidences in 1/10000.
use marine_time_motion_platf.Prelude.{
  ℕ, Bool, ◌&&◌, List, [], ◌∷◌, map, filter, ◌==◌, if◌then◌else◌, Option, none, some,
}
use marine_time_motion_platf.Prelude.Text.{Text}

pub record HistoryEntry : Type 0 where
  pub reason : Text
  pub actor : Text
  pub prior_event_occurrence_id : Option ℕ
  pub timestamp : ℕ

pub record EventOccurrence : Type 0 where
  pub id : ℕ
  pub vessel_call_id : ℕ
  pub event_definition_id : ℕ
  pub occurrence_index : ℕ
  pub movement_scope : Text
  pub source_timezone : Option Text
  pub utc_value : ℕ
  pub confidence : Option ℕ
  pub verification_status : Option Text
  pub source_system : Option Text
  pub correction_history : List HistoryEntry
  pub human_review_state : Option Text
  pub is_quarantined : Bool
  pub superseded_by_id : Option ℕ
  pub is_superseded : Bool
  pub created_at : ℕ

pub data Method : Type 0 where
  automatic steward_override : Method

-- What the selection is compared by, one entry for each candidate.
pub record Comparison : Type 0 where
  pub event_occurrence_id : ℕ
  pub source_system : Option Text
  pub verification_status : Option Text
  pub confidence : Option ℕ
  pub utc_value : ℕ
  pub selected : Bool

-- The winning reason, by what it quotes.
pub data Explanation : Type 0 where
  only_observation : Explanation
  verification_outranks : Option Text → Option Text → Explanation
  confidence_exceeds : Option ℕ → Option ℕ → Explanation
  source_has_priority : Option Text → Explanation

pub data Reasoning : Type 0 where
  compared : List Comparison → Explanation → Reasoning
  corrected : (correction_id : ℕ) (reason actor : Text) → Reasoning

-- A row of `journey.canonical_observation`; the code finds it by its vessel call and its event.
pub record CanonicalObservation : Type 0 where
  pub vessel_call_id : ℕ
  pub event_definition_id : ℕ
  pub candidate_event_occurrence_ids : List ℕ
  pub selected_event_occurrence_id : Option ℕ
  pub conflict_detected : Bool
  pub selection_method : Method
  pub selection_reasoning : Option Reasoning
  pub quality_issue_id : Option ℕ
  pub decided_by : Option Text
  pub decided_at : Option ℕ
  pub rule_version : Option Text

pub data Error : Type 0 where
  multiple_results_found call_not_found integrity_error : Error

pub data Result (A : Type 0) : Type 0 where
  ok : A → Result A
  err : Error → Result A

-- The rows of one slot, a vessel call and an event.
unfoldable pub in_slot : ℕ → ℕ → CanonicalObservation → Bool
in_slot call event o = (o.vessel_call_id == call) && (o.event_definition_id == event)

-- `scalar_one_or_none()` on a list of rows.
abbrev pub one_or_none : {A : Type 0} → List A → Result (Option A)
one_or_none [] = ok none
one_or_none (x ∷ []) = ok (some x)
one_or_none (x ∷ y ∷ rest) = err multiple_results_found

unfoldable pub observation_at :
    ℕ → ℕ → List CanonicalObservation → Result (Option CanonicalObservation)
observation_at call event rows = one_or_none (filter (in_slot call event) rows)

-- A write to the row of a slot.
unfoldable pub update_at :
    ℕ
    → ℕ
    → (CanonicalObservation → CanonicalObservation)
    → List CanonicalObservation
    → List CanonicalObservation
update_at call event f rows = map (λ o. if in_slot call event o then f o else o) rows
