-- ===== src/Identity/Merger.antt =====
-- apps/api/services/identity/merger.py: merging a match candidate, and taking a merge back.
-- A raised error leaves the store as it was, since nothing is committed.
pub mod Children
pub mod Events
pub mod Writes
pub mod Calls
pub mod Inversion
pub mod RoundTrip
pub mod Effect
use marine_time_motion_platf.Prelude.{
  ℕ, Bool, true, false, ◌&&◌, ◌||◌, not, List, [], ◌∷◌, ◌++◌, map, filter, find, any, ◌==◌, Option,
  none, some, if◌then◌else◌,
}
use mathlib.Core.List.{foldl}
use marine_time_motion_platf.Prelude.Text.{Text}
use marine_time_motion_platf.Identity.Record.{
  Column, Value, null, num, bool, VesselCall, column_index, set_column, is_merged, merged_into_id,
  vcn, vessel_name, tenant_id,
}
use marine_time_motion_platf.Identity.Matcher.{steward_review}
use marine_time_motion_platf.Identity.Survivorship.{
  determine_survivor_record, generate_preview, consolidated_preview,
}
use marine_time_motion_platf.Identity.Store.{
  Child, EventSlot, EventOccurrence, MatchCandidate, CandidateStatus, evaluated, MatchEvidence,
  Transferred, Snapshot, DecisionState, rejected, unmerged, Note, merged_into, unmerged_by,
  MergeDecision, ActorRole, data_steward, system, AuditEvent, identity_merge, identity_unmerge,
  Store, call_by_id, update_call, belongs, reassign,
}

pub data Error : Type 0 where
  candidate_not_found conflicting_identifiers records_missing : Error
  decision_not_found not_merged abort_missing_records : Error

pub data Result (A : Type 0) : Type 0 where
  err : Error → Result A
  ok : A → Result A

infixl 5 ◌>>=◌ ◌>>◌
abbrev pub ◌>>=◌ : {A B : Type 0} → Result A → (A → Result B) → Result B
err e >>= f = err e
ok a >>= f = f a

abbrev pub or_raise : {A : Type 0} → Option A → Error → Result A
or_raise none e = err e
or_raise (some a) e = ok a

abbrev pub ◌>>◌ : {B : Type 0} → Result (Unit {0}) → Result B → Result B
r >> next = r >>= λ _. next

abbrev pub raise_if : Bool → Error → Result (Unit {0})
raise_if true e = err e
raise_if false e = ok tt

abbrev same_slot : EventSlot → EventSlot → Bool
same_slot a b =
    (a.event_definition_id == b.event_definition_id) && (a.occurrence_index == b.occurrence_index)

-- Whether the survivor has an observation of the same event and index.
unfoldable pub has_duplicate : ℕ → EventSlot → List EventOccurrence → Bool
has_duplicate survivor slot events =
    any (λ e. belongs survivor e && same_slot e.content slot) events

-- `db.delete(child)`
abbrev pub remove : {P : Type 0} → ℕ → List (Child P) → List (Child P)
remove i rows = filter (λ c. not (c.id == i)) rows

-- The loop over the events of the merged call: an event that the survivor has is deleted, any
-- other moves to the survivor. The session does not flush before a query, so the search for a
-- duplicate sees the events as they are `stored`. The ids of those that moved are returned too.
unfoldable pub transfer_events :
    ℕ
    → List EventOccurrence
    → List EventOccurrence
    → List EventOccurrence
    → List ℕ
    → List EventOccurrence × List ℕ
transfer_events survivor stored [] events moved = (events, moved)
transfer_events survivor stored (e ∷ todo) events moved =
    let duplicate = has_duplicate survivor e.content stored in
    transfer_events survivor stored todo
      (if duplicate then remove e.id events else reassign survivor e.id events)
      (if duplicate then moved else moved ++ e.id ∷ [])

-- The loop over the service requests or the delays of the merged call.
unfoldable pub transfer_children : {P : Type 0} → ℕ → ℕ → List (Child P) → List (Child P) × List ℕ
transfer_children survivor merged rows =
    let todo = map (λ c. c.id) (filter (belongs merged) rows) in
    (foldl (λ acc i. reassign survivor i acc) rows todo, todo)

-- A key of `custom_survivorship`: a column, a field that no merge may write, or no field at all.
pub data Key : Type 0 where
  column : Column → Key
  id created_at : Key
  unknown : Text → Key

-- `consolidated.update(custom)`, one entry at a time; only columns are looked at later.
abbrev pub update_entry : List (Column × Value) → Key × Value → List (Column × Value)
update_entry [] (column c, v) = (c, v) ∷ []
update_entry ((d, w) ∷ entries) (column c, v) =
    let rest = update_entry entries (column c, v) in
    if column_index c == column_index d then (c, v) ∷ entries else (d, w) ∷ rest
update_entry entries (id, v) = entries
update_entry entries (created_at, v) = entries
update_entry entries (unknown t, v) = entries

-- The loop of `setattr` on the survivor, which skips the tenant.
unfoldable pub apply_entries : List (Column × Value) → VesselCall → VesselCall
unfolding set_column
apply_entries [] call = call
apply_entries ((c, v) ∷ entries) call =
    apply_entries entries
      (if column_index c == column_index tenant_id then call else set_column c v call)

-- `merged.is_merged = …; merged.merged_into_id = …`
abbrev pub mark_merged : ℕ → VesselCall → VesselCall
mark_merged survivor v =
    set_column merged_into_id (num survivor) (set_column is_merged (bool true) v)

-- The writes of a merge once the candidate and both records are found, with the id that the
-- database gives to the decision.
abbrev pub merged_calls :
    VesselCall → VesselCall → List (Column × Value) → List VesselCall → List VesselCall
merged_calls survivor merged entries calls =
    update_call merged.id (mark_merged survivor.id)
      (update_call survivor.id (apply_entries entries) calls)

-- A column of a stored row, as it reads after the writes.
abbrev column_now : Column → VesselCall → List VesselCall → Value
column_now c v calls = elim (call_by_id v.id calls) [ none ↦ v.get c | some now ↦ now.get c ]

module _ {S D : Type 0} where
  unfoldable pub commit_merge :
      MatchCandidate
      → VesselCall
      → VesselCall
      → Text
      → Bool
      → List (Key × Value)
      → ℕ
      → Store S D
      → Store S D × MergeDecision
  commit_merge candidate v1 v2 actor manual custom new_id db =
      let (survivor, merged) = determine_survivor_record v1 v2 in
      let (events, moved_events) =
        transfer_events survivor.id db.events (filter (belongs merged.id) db.events) db.events [] in
      let (services, moved_services) = transfer_children survivor.id merged.id db.services in
      let (delays, moved_delays) = transfer_children survivor.id merged.id db.delays in
      let entries = foldl update_entry (consolidated_preview (generate_preview v1 v2)) custom in
      let calls = merged_calls survivor merged entries db.calls in
      let decision : MergeDecision = record {
        id = new_id;
        match_candidate_id = candidate.id;
        decision = DecisionState.merged;
        is_reversible = true;
        survivor_record_id = survivor.id;
        merged_record_id = merged.id;
        evidence_snapshot =
            map (λ e. e.evidence) (filter (λ e. e.match_candidate_id == candidate.id) db.evidences);
        prior_state_snapshot = some (record {
          survivor_id = survivor.id;
          survivor_fields = survivor.get;
          merged_id = merged.id;
          merged_fields = merged.get;
          transferred_children = record {
            event_occurrences = moved_events;
            service_requests = moved_services;
            delays = moved_delays;
          };
        });
        actor = actor;
        notes =
            merged_into (column_now vessel_name merged calls) (column_now vcn merged calls)
              (column_now vessel_name survivor calls) (column_now vcn survivor calls)
            ∷ [];
      } in
      (
        record {
          calls = calls;
          events = events;
          services = services;
          delays = delays;
          candidates =
              map
                (λ c.
                  if c.id == candidate.id then record c { status = CandidateStatus.merged } else c)
                db.candidates;
          evidences = db.evidences;
          decisions = db.decisions ++ decision ∷ [];
          audit =
              db.audit
              ++ identity_merge survivor.id actor (if manual then data_steward else system)
                  candidate.id (column_now vcn survivor calls) merged.id
                  (column_now vcn merged calls) candidate.match_score manual
                ∷ [];
        },
        decision,
      )

  unfoldable pub execute_merge :
      ℕ → Text → Bool → List (Key × Value) → ℕ → Store S D → Result (Store S D × MergeDecision)
  execute_merge candidate_id actor manual custom new_id db = do
    candidate ← or_raise (find (λ c. c.id == candidate_id) db.candidates) candidate_not_found
    raise_if (candidate.conflict_detected && not manual) conflicting_identifiers
    v1 ← or_raise (call_by_id candidate.source_record_1_id db.calls) records_missing
    v2 ← or_raise (call_by_id candidate.source_record_2_id db.calls) records_missing
    ok (commit_merge candidate v1 v2 actor manual custom new_id db)

-- `for child_id in …: child.vessel_call_id = merged.id`
unfoldable pub restore_children : {P : Type 0} → ℕ → List ℕ → List (Child P) → List (Child P)
restore_children merged ids rows = foldl (λ acc i. reassign merged i acc) rows ids

-- `_apply_serialized_fields`: all columns but `id` and `created_at`.
abbrev pub apply_serialized : (Column → Value) → VesselCall → VesselCall
apply_serialized fields v = record v { get = fields }

-- `merged.is_merged = False; merged.merged_into_id = None`
abbrev pub unmark_merged : VesselCall → VesselCall
unmark_merged v = set_column merged_into_id null (set_column is_merged (bool false) v)

abbrev no_children : Transferred
no_children = record { event_occurrences = []; service_requests = []; delays = [] }

abbrev pub snapshot_survivor : MergeDecision → Option Snapshot → ℕ
snapshot_survivor decision none = decision.survivor_record_id
snapshot_survivor decision (some s) = s.survivor_id

abbrev pub snapshot_merged : MergeDecision → Option Snapshot → ℕ
snapshot_merged decision none = decision.merged_record_id
snapshot_merged decision (some s) = s.merged_id

-- The columns of both rows as the snapshot has them, if there is one.
abbrev restore_calls : Option Snapshot → ℕ → ℕ → List VesselCall → List VesselCall
restore_calls none survivor merged calls = update_call merged unmark_merged calls
restore_calls (some s) survivor merged calls = update_call merged unmark_merged (
    update_call merged (apply_serialized s.merged_fields)
      (update_call survivor (apply_serialized s.survivor_fields) calls))

abbrev transferred_of : Option Snapshot → Transferred
transferred_of none = no_children
transferred_of (some s) = s.transferred_children

abbrev pub is_merged_state : DecisionState → Bool
is_merged_state DecisionState.merged = true
is_merged_state rejected = false
is_merged_state unmerged = false

module _ {S D : Type 0} where
  unfoldable pub commit_unmerge : MergeDecision → ℕ → ℕ → Text → Option Text → Store S D → Store S D
  commit_unmerge decision survivor merged actor notes db =
      let moved = transferred_of decision.prior_state_snapshot in
      record {
        calls = restore_calls decision.prior_state_snapshot survivor merged db.calls;
        events = restore_children merged moved.event_occurrences db.events;
        services = restore_children merged moved.service_requests db.services;
        delays = restore_children merged moved.delays db.delays;
        candidates =
            map
              (λ c.
                if c.id == decision.match_candidate_id
                then record c { status = evaluated steward_review }
                else c)
              db.candidates;
        evidences = db.evidences;
        decisions =
            map
              (λ d.
                if d.id == decision.id
                then record d {
                  decision = unmerged;
                  is_reversible = false;
                  notes = d.notes ++ unmerged_by actor notes ∷ [];
                }
                else d)
              db.decisions;
        audit = db.audit ++ identity_unmerge survivor actor decision.id merged notes ∷ [];
      }

  unfoldable pub execute_unmerge : ℕ → Text → Option Text → Store S D → Result (Store S D)
  execute_unmerge decision_id actor notes db = do
    decision ← or_raise (find (λ d. d.id == decision_id) db.decisions) decision_not_found
    raise_if (not (is_merged_state decision.decision)) not_merged
    let survivor_id = snapshot_survivor decision decision.prior_state_snapshot
    let merged_id = snapshot_merged decision decision.prior_state_snapshot
    survivor ← or_raise (call_by_id survivor_id db.calls) abort_missing_records
    merged ← or_raise (call_by_id merged_id db.calls) abort_missing_records
    ok (commit_unmerge decision survivor.id merged.id actor notes db)
