-- ===== src/Identity/Store.antt =====
-- The tables that a merge reads and writes. Ids are only compared, so they are naturals.
use marine_time_motion_platf.Prelude.{ℕ, Bool, List, map, Option, ◌==◌, find, if◌then◌else◌}
use marine_time_motion_platf.Prelude.Text.{Text}
use marine_time_motion_platf.Identity.Record.{Column, Value, VesselCall}
use marine_time_motion_platf.Identity.Matcher.{Status, AttributeEvidence}

-- A row that belongs to a vessel call: an event occurrence, a service request or a delay.
pub record Child (P : Type 0) : Type 0 where
  pub id : ℕ
  pub vessel_call_id : ℕ
  pub content : P

-- What identifies an event within its vessel call.
pub record EventSlot : Type 0 where
  pub event_definition_id : ℕ
  pub occurrence_index : ℕ

abbrev pub EventOccurrence : Type 0
EventOccurrence = Child EventSlot

pub data CandidateStatus : Type 0 where
  evaluated : Status → CandidateStatus
  merged : CandidateStatus

pub record MatchCandidate : Type 0 where
  pub id : ℕ
  pub source_record_1_id : ℕ
  pub source_record_2_id : ℕ
  pub match_score : ℕ
  pub status : CandidateStatus
  pub conflict_detected : Bool

pub record MatchEvidence : Type 0 where
  pub match_candidate_id : ℕ
  pub evidence : AttributeEvidence

pub record Transferred : Type 0 where
  pub event_occurrences : List ℕ
  pub service_requests : List ℕ
  pub delays : List ℕ

-- `prior_state_snapshot`; of a row, all columns but `id` and `created_at`.
pub record Snapshot : Type 0 where
  pub survivor_id : ℕ
  pub survivor_fields : Column → Value
  pub merged_id : ℕ
  pub merged_fields : Column → Value
  pub transferred_children : Transferred

pub data DecisionState : Type 0 where
  merged rejected unmerged : DecisionState

-- The notes of a decision, by what they quote.
pub data Note : Type 0 where
  merged_into : Value → Value → Value → Value → Note
  unmerged_by : Text → Option Text → Note

pub record MergeDecision : Type 0 where
  pub id : ℕ
  pub match_candidate_id : ℕ
  pub decision : DecisionState
  pub is_reversible : Bool
  pub survivor_record_id : ℕ
  pub merged_record_id : ℕ
  pub evidence_snapshot : List AttributeEvidence
  pub prior_state_snapshot : Option Snapshot
  pub actor : Text
  pub notes : List Note

pub data ActorRole : Type 0 where
  data_steward system : ActorRole

pub data AuditEvent : Type 0 where
  identity_merge :
      (resource_id : ℕ) (actor_id : Text) (actor_role : ActorRole) (candidate_id : ℕ)
      (survivor_vcn : Value) (merged_id : ℕ) (merged_vcn : Value) (match_score : ℕ)
      (manual_override : Bool)
      → AuditEvent
  identity_unmerge :
      (resource_id : ℕ) (actor_id : Text) (decision_id merged_id : ℕ) (reason : Option Text)
      → AuditEvent

pub record Store (S D : Type 0) : Type 0 where
  pub calls : List VesselCall
  pub events : List EventOccurrence
  pub services : List (Child S)
  pub delays : List (Child D)
  pub candidates : List MatchCandidate
  pub evidences : List MatchEvidence
  pub decisions : List MergeDecision
  pub audit : List AuditEvent

-- `select(VesselCall).where(VesselCall.id == id)`, and a write to that row.
abbrev pub call_by_id : ℕ → List VesselCall → Option VesselCall
call_by_id i calls = find (λ v. v.id == i) calls

abbrev pub update_call : ℕ → (VesselCall → VesselCall) → List VesselCall → List VesselCall
update_call i f calls = map (λ v. if v.id == i then f v else v) calls

module _ {P : Type 0} where
  -- The children of a vessel call.
  abbrev pub belongs : ℕ → Child P → Bool
  belongs i c = c.vessel_call_id == i

  -- `child.vessel_call_id = target` on the child with an id, if there is one.
  abbrev pub reassign : ℕ → ℕ → List (Child P) → List (Child P)
  reassign target i rows =
      map (λ c. if c.id == i then record c { vessel_call_id = target } else c) rows
