-- ===== src/Identity/Merger/Effect.antt =====
-- What a merge does to the records and their children, and when it is refused.
use marine_time_motion_platf.Prelude.{
  ℕ, ◌≡◌, subst, Bool, true, false, not, List, filter, find, ◌==◌, some,
}
use mathlib.Core.List.{foldl}
use marine_time_motion_platf.Prelude.Text.{Text}
use marine_time_motion_platf.Identity.Record.{
  Value, num, bool, VesselCall, is_merged, merged_into_id,
}
use marine_time_motion_platf.Identity.Survivorship.{
  determine_survivor_record, generate_preview, consolidated_preview,
}
use marine_time_motion_platf.Identity.Store.{
  MatchCandidate, MergeDecision, Store, call_by_id, belongs,
}
use marine_time_motion_platf.Identity.Merger.{
  ok, err, conflicting_identifiers, Key, update_entry, commit_merge, execute_merge,
}
use marine_time_motion_platf.Identity.Merger.Children.{relocate, transfer_children_lem}
use marine_time_motion_platf.Identity.Merger.Events.{is_lost, is_moving, transfer_events_lem}
use marine_time_motion_platf.Identity.Merger.Calls.{merged_calls_marked}
use marine_time_motion_platf.Identity.Merger.Inversion.{execute_merge-HasMerged, survivor_found}
use marine_time_motion_platf.Identity.Merger.RoundTrip.{IsConsistent}

module _ {S D : Type 0} where
  -- The children of one call have moved to another, and the one is marked.
  pub record HasMoved (survivor merged : ℕ) (before after : Store S D) : Type 0 where
    pub services : after.services ≡ relocate survivor (belongs merged) before.services
    pub delays : after.delays ≡ relocate survivor (belongs merged) before.delays
    pub events :
        after.events
        ≡ relocate survivor
            (is_moving survivor merged before.events)
            (filter (λ e. not (is_lost survivor merged before.events e)) before.events)
    pub marked : VesselCall
    pub found : call_by_id merged after.calls ≡ some marked
    pub is_marked : marked.get is_merged ≡ bool true
    pub into_survivor : marked.get merged_into_id ≡ num survivor

  commit_merge-HasMoved :
      (candidate : MatchCandidate) (v1 v2 : VesselCall) (actor : Text) (manual : Bool)
      (custom : List (Key × Value)) (new_id : ℕ) (db : Store S D)
      → IsConsistent db
      → let merged = (determine_survivor_record v1 v2).1 in
        call_by_id merged.id db.calls ≡ some merged
        → let (db', decision) = commit_merge candidate v1 v2 actor manual custom new_id db in
          HasMoved decision.survivor_record_id decision.merged_record_id db db'
  unfolding commit_merge
  commit_merge-HasMoved candidate v1 v2 actor manual custom new_id db c found_m =
      let (survivor, merged) = determine_survivor_record v1 v2 in
      let entries = foldl update_entry (consolidated_preview (generate_preview v1 v2)) custom in
      let (marked, found, is_marked, into) =
        merged_calls_marked survivor merged entries db.calls merged found_m in
      record {
        services = transfer_children_lem survivor.id merged.id db.services c.services;
        delays = transfer_children_lem survivor.id merged.id db.delays c.delays;
        events = transfer_events_lem survivor.id merged.id db.events c.events;
        marked = marked;
        found = found;
        is_marked = is_marked;
        into_survivor = into;
      }

-- A merge that went through has marked the merged call as part of the survivor; its service
-- requests and delays now belong to the survivor, and so do its events, but for those that the
-- survivor has too, which are deleted; all other children are as before.
pub execute_merge-HasMoved :
    {S D : Type 0} (candidate_id : ℕ) (actor : Text) (manual : Bool) (custom : List (Key × Value))
    (new_id : ℕ) (db db' : Store S D) (decision : MergeDecision)
    → IsConsistent db
    → execute_merge candidate_id actor manual custom new_id db ≡ ok (db', decision)
    → HasMoved decision.survivor_record_id decision.merged_record_id db db'
execute_merge-HasMoved candidate_id actor manual custom new_id db db' decision c h =
    let r = execute_merge-HasMerged candidate_id actor manual custom new_id db (db', decision) h in
    let (_, found_m) =
      survivor_found r.candidate.source_record_1_id r.candidate.source_record_2_id r.v1 r.v2
        db.calls r.found_1 r.found_2 in
    subst (λ p. HasMoved p.1.survivor_record_id p.1.merged_record_id db p.0) r.result
      (commit_merge-HasMoved r.candidate r.v1 r.v2 actor manual custom new_id db c found_m)

-- Without a steward a candidate with conflicting identifiers is never merged, whatever its score.
pub execute_merge_conflict :
    {S D : Type 0} (candidate_id : ℕ) (actor : Text) (custom : List (Key × Value)) (new_id : ℕ)
    (db : Store S D) (candidate : MatchCandidate)
    → find (λ c. c.id == candidate_id) db.candidates ≡ some candidate
    → candidate.conflict_detected ≡ true
    → execute_merge candidate_id actor false custom new_id db ≡ err conflicting_identifiers
unfolding execute_merge
execute_merge_conflict candidate_id actor custom new_id db candidate found conflict =
    rw (found, conflict)
