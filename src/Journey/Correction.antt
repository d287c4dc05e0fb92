-- ===== src/Journey/Correction.antt =====
-- apps/api/services/journey/corrections.py: a steward replaces an observation. Of the reconstruction
-- that follows an approved correction, this file has the selection of the canonical occurrences.
pub mod Governs
use marine_time_motion_platf.Prelude.{
  ℕ, ◌+◌, Bool, true, false, ◌&&◌, ◌||◌, not, List, [], ◌∷◌, ◌++◌, map, any, find, ltb, leb, ◌==◌,
  length, if◌then◌else◌, Option, none, some,
}
use mathlib.Core.Option.{get_or}
use marine_time_motion_platf.Prelude.Text.{Text, text, ◌=ᵗ◌}
use marine_time_motion_platf.Journey.Occurrence.{
  HistoryEntry, EventOccurrence, Method, steward_override, automatic, Reasoning, corrected,
  CanonicalObservation, Error, call_not_found, integrity_error, Result, ok, err, observation_at,
  update_at,
}
use marine_time_motion_platf.Journey.Selector.{Selector, QualityIssue, resolve_vessel_call}

pub record VesselCall : Type 0 where
  pub id : ℕ
  pub tenant_id : Option Text

pub record ObservationCorrection : Type 0 where
  pub id : ℕ
  pub vessel_call_id : ℕ
  pub event_definition_id : ℕ
  pub prior_event_occurrence_id : Option ℕ
  pub new_event_occurrence_id : ℕ
  pub reason : Text
  pub actor : Text
  pub approval_state : Text
  pub approved_by : Option Text
  pub approved_at : Option ℕ
  pub triggers_recalculation : Bool
  pub recalculated_at : Option ℕ

pub record CorrectionAudit : Type 0 where
  pub actor_id : Text
  pub resource_id : ℕ
  pub vessel_call_id : ℕ
  pub correction_id : ℕ
  pub prior_event_occurrence_id : Option ℕ
  pub reason : Text
  pub approval_state : Text

pub record JourneyStore : Type 0 where
  pub calls : List VesselCall
  pub occurrences : List EventOccurrence
  pub observations : List CanonicalObservation
  pub corrections : List ObservationCorrection
  pub audit : List CorrectionAudit

-- The arguments of `create_correction`, with the ids of the new rows and the time.
pub record Request : Type 0 where
  pub vessel_call_id : ℕ
  pub event_definition_id : ℕ
  pub new_utc_value : ℕ
  pub reason : Text
  pub actor : Text
  pub prior_event_occurrence_id : Option ℕ
  pub approval_state : Text
  pub new_occurrence_id : ℕ
  pub correction_id : ℕ
  pub now : ℕ

abbrev pub is_approved : Request → Bool
is_approved r = r.approval_state =ᵗ text "APPROVED"

abbrev pub occurrence_by_id : Option ℕ → List EventOccurrence → Option EventOccurrence
occurrence_by_id none os = none
occurrence_by_id (some i) os = find (λ o. o.id == i) os

-- The new observation; its index is kept away from those of the ingestion.
unfoldable pub corrected_occurrence : Request → Option EventOccurrence → EventOccurrence
corrected_occurrence r prior = record {
  id = r.new_occurrence_id;
  vessel_call_id = r.vessel_call_id;
  event_definition_id = r.event_definition_id;
  occurrence_index = elim prior [ none ↦ 1 | some p ↦ p.occurrence_index + 1000 ];
  movement_scope = elim prior [ none ↦ text "ARRIVAL" | some p ↦ p.movement_scope ];
  source_timezone = elim prior [
    | none ↦ some (text "Africa/Johannesburg")
    | some p ↦ p.source_timezone
  ];
  utc_value = r.new_utc_value;
  confidence = some 10000;
  verification_status = some (text "Verified");
  source_system = some (text "STEWARD_CORRECTION");
  correction_history =
      record {
        reason = r.reason;
        actor = r.actor;
        prior_event_occurrence_id = elim prior [ none ↦ none | some p ↦ some p.id ];
        timestamp = r.now;
      }
      ∷ [];
  human_review_state = some r.approval_state;
  is_quarantined = false;
  superseded_by_id = none;
  is_superseded = false;
  created_at = r.now;
}

-- The unique constraint of the table of occurrences.
abbrev is_taken : EventOccurrence → EventOccurrence → Bool
is_taken new o =
    (o.vessel_call_id == new.vessel_call_id)
    && (o.event_definition_id == new.event_definition_id)
    && (o.occurrence_index == new.occurrence_index)

unfoldable pub supersede : ℕ → ℕ → List EventOccurrence → List EventOccurrence
supersede prior new os =
    map
      (λ o.
        if o.id == prior then record o { is_superseded = true; superseded_by_id = some new } else o)
      os

-- `sorted(set(ids) | {i})`, on ids as texts in the code, whose order nothing reads.
unfoldable pub insert_id : ℕ → List ℕ → List ℕ
insert_id i [] = i ∷ []
insert_id i (j ∷ js) =
    let rest = insert_id i js in if i == j then j ∷ js else if ltb i j then i ∷ j ∷ js else j ∷ rest

unfoldable pub candidate_ids : Option ℕ → ℕ → List ℕ → List ℕ
candidate_ids none new ids = insert_id new ids
candidate_ids (some p) new ids = insert_id p (insert_id new ids)

-- The row of a slot when it is first made.
abbrev blank : ℕ → ℕ → CanonicalObservation
blank call event = record {
  vessel_call_id = call;
  event_definition_id = event;
  candidate_event_occurrence_ids = [];
  selected_event_occurrence_id = none;
  conflict_detected = false;
  selection_method = automatic;
  selection_reasoning = none;
  quality_issue_id = none;
  decided_by = none;
  decided_at = none;
  rule_version = none;
}

unfoldable pub override_with : Request → Option ℕ → CanonicalObservation → CanonicalObservation
override_with r prior o =
    let ids = candidate_ids prior r.new_occurrence_id o.candidate_event_occurrence_ids in
    record o {
      candidate_event_occurrence_ids = ids;
      selected_event_occurrence_id = some r.new_occurrence_id;
      selection_method = steward_override;
      conflict_detected = o.conflict_detected || ltb 1 (length ids);
      selection_reasoning = some (corrected r.correction_id r.reason r.actor);
      decided_by = some r.actor;
      decided_at = some r.now;
    }

-- `_record_canonical_override`
unfoldable pub record_canonical_override :
    Request → Option ℕ → List CanonicalObservation → Result (List CanonicalObservation)
record_canonical_override r prior rows =
    elim (observation_at r.vessel_call_id r.event_definition_id rows) [
      | err e ↦ err e
      | ok none ↦
          ok (rows ++ override_with r prior (blank r.vessel_call_id r.event_definition_id) ∷ [])
      | ok (some o) ↦
          ok (update_at r.vessel_call_id r.event_definition_id (override_with r prior) rows)
    ]

abbrev correction_of : Request → Option ℕ → ObservationCorrection
correction_of r prior = record {
  id = r.correction_id;
  vessel_call_id = r.vessel_call_id;
  event_definition_id = r.event_definition_id;
  prior_event_occurrence_id = prior;
  new_event_occurrence_id = r.new_occurrence_id;
  reason = r.reason;
  actor = r.actor;
  approval_state = r.approval_state;
  approved_by = if is_approved r then some r.actor else none;
  approved_at = if is_approved r then some r.now else none;
  triggers_recalculation = true;
  recalculated_at = if is_approved r then some r.now else none;
}

abbrev audit_of : Request → Option ℕ → CorrectionAudit
audit_of r prior = record {
  actor_id = r.actor;
  resource_id = r.new_occurrence_id;
  vessel_call_id = r.vessel_call_id;
  correction_id = r.correction_id;
  prior_event_occurrence_id = prior;
  reason = r.reason;
  approval_state = r.approval_state;
}

abbrev pub id_of : Option EventOccurrence → Option ℕ
id_of none = none
id_of (some o) = some o.id

-- The occurrences after the new one is stored, with the prior one superseded by an approved correction.
unfoldable pub stored_occurrences :
    Request → Option EventOccurrence → List EventOccurrence → List EventOccurrence
stored_occurrences r prior os =
    let all_of = os ++ corrected_occurrence r prior ∷ [] in
    elim prior [
      | none ↦ all_of
      | some p ↦ if is_approved r then supersede p.id r.new_occurrence_id all_of else all_of
    ]

-- The decisions after an approved correction, the recalculation of the journey included.
unfoldable pub approved_observations :
    Selector
    → List QualityIssue
    → (ℕ → Text)
    → Request
    → Option EventOccurrence
    → List EventOccurrence
    → List CanonicalObservation
    → Result (List CanonicalObservation)
approved_observations s issues name_of r prior os rows =
    elim (record_canonical_override r (id_of prior) rows) [
      | err e ↦ err e
      | ok rows' ↦ elim (resolve_vessel_call s issues name_of r.now r.vessel_call_id os rows') [
        | err e ↦ err e
        | ok (results, rows'') ↦ ok rows''
      ]
    ]

unfoldable pub create_correction :
    Selector → List QualityIssue → (ℕ → Text) → Request → JourneyStore → Result JourneyStore
create_correction s issues name_of r db =
    let prior = occurrence_by_id r.prior_event_occurrence_id db.occurrences in
    let new = corrected_occurrence r prior in
    let occurrences = stored_occurrences r prior db.occurrences in
    let decisions =
      if is_approved r
      then approved_observations s issues name_of r prior occurrences db.observations
      else ok db.observations in
    elim (find (λ c. c.id == r.vessel_call_id) db.calls) [
      | none ↦ err call_not_found
      | some call ↦
          if any (is_taken new) db.occurrences then err integrity_error else elim decisions [
            | err e ↦ err e
            | ok rows ↦ ok (record {
              calls = db.calls;
              occurrences = occurrences;
              observations = rows;
              corrections = db.corrections ++ correction_of r (id_of prior) ∷ [];
              audit = db.audit ++ audit_of r (id_of prior) ∷ [];
            })
          ]
    ]
