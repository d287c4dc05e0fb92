-- ===== src/Identity/Merger/RoundTrip.antt =====
-- Taking a merge back restores the records, and the children as far as the merge kept them.
use marine_time_motion_platf.Prelude.{
  ℕ, ◌≡◌, refl, sym, ap₂, subst, ◌∙◌, ◌≢◌, Bool, false, not, List, All, filter, Option, some,
}
use mathlib.Core.List.{foldl}
use marine_time_motion_platf.Prelude.Text.{Text}
use marine_time_motion_platf.Identity.Record.{
  Column, Value, null, bool, VesselCall, is_merged, merged_into_id,
}
use marine_time_motion_platf.Identity.Survivorship.{
  determine_survivor_record, generate_preview, consolidated_preview,
}
use marine_time_motion_platf.Identity.Store.{MatchCandidate, MergeDecision, Store, call_by_id}
use marine_time_motion_platf.Identity.Merger.{
  ok, Key, update_entry, commit_merge, execute_merge, commit_unmerge, execute_unmerge,
}
use marine_time_motion_platf.Identity.Merger.Children.{HasUniqueIds, restore-transfer_children}
use marine_time_motion_platf.Identity.Merger.Events.{is_lost, restore-transfer_events}
use marine_time_motion_platf.Identity.Merger.Writes.{HasUniqueCalls, only_call}
use marine_time_motion_platf.Identity.Merger.Calls.{restore-merged_calls, merged_calls_found}
use marine_time_motion_platf.Identity.Merger.Inversion.{
  execute_merge-HasMerged, survivor_found, find_new, execute_unmerge_lem,
}

-- A call that stands for itself.
abbrev pub IsActive : VesselCall → Type 0
IsActive v = (v.get is_merged ≡ bool false) × (v.get merged_into_id ≡ null)

module _ {S D : Type 0} where
  -- Ids are primary keys.
  pub record IsConsistent (db : Store S D) : Type 0 where
    pub calls : HasUniqueCalls db.calls
    pub events : HasUniqueIds db.events
    pub services : HasUniqueIds db.services
    pub delays : HasUniqueIds db.delays

  -- Two stores with the same records and children, but for the lost events.
  pub record IsRestored (survivor merged : ℕ) (before after : Store S D) : Type 0 where
    pub same_calls : after.calls ≡ before.calls
    pub same_services : after.services ≡ before.services
    pub same_delays : after.delays ≡ before.delays
    pub kept_events :
        after.events ≡ filter (λ e. not (is_lost survivor merged before.events e)) before.events

  module _ (candidate : MatchCandidate) (v1 v2 : VesselCall) (actor : Text) (manual : Bool)
      (custom : List (Key × Value)) (new_id : ℕ) (db : Store S D) (steward : Text)
      (notes : Option Text) where
    abbrev survivor : VesselCall
    survivor = (determine_survivor_record v1 v2).0

    abbrev merged : VesselCall
    merged = (determine_survivor_record v1 v2).1

    abbrev entries : List (Column × Value)
    entries = foldl update_entry (consolidated_preview (generate_preview v1 v2)) custom

    abbrev after_merge : Store S D × MergeDecision
    after_merge = commit_merge candidate v1 v2 actor manual custom new_id db

    commit_unmerge-IsRestored :
        IsConsistent db
        → call_by_id survivor.id db.calls ≡ some survivor
        → call_by_id merged.id db.calls ≡ some merged
        → IsActive merged
        → IsRestored survivor.id merged.id db
            (commit_unmerge after_merge.1 survivor.id merged.id steward notes after_merge.0)
    unfolding commit_merge commit_unmerge
    commit_unmerge-IsRestored c found_s found_m active = record {
      same_calls =
          restore-merged_calls survivor merged entries db.calls
            (only_call survivor.id survivor db.calls c.calls found_s)
            (only_call merged.id merged db.calls c.calls found_m) active.0 active.1;
      same_services = restore-transfer_children survivor.id merged.id db.services c.services;
      same_delays = restore-transfer_children survivor.id merged.id db.delays c.delays;
      kept_events = restore-transfer_events survivor.id merged.id db.events c.events;
    }

    execute_unmerge-commit_merge :
        All (λ d. d.id ≢ new_id) db.decisions
        → call_by_id survivor.id db.calls ≡ some survivor
        → call_by_id merged.id db.calls ≡ some merged
        → execute_unmerge new_id steward notes after_merge.0
          ≡ ok (commit_unmerge after_merge.1 survivor.id merged.id steward notes after_merge.0)
    unfolding commit_merge
    execute_unmerge-commit_merge fresh found_s found_m =
        let (s, found_s', id_s) =
          merged_calls_found survivor merged entries survivor.id db.calls survivor found_s in
        let (m, found_m', id_m) =
          merged_calls_found survivor merged entries merged.id db.calls merged found_m in
        execute_unmerge_lem new_id steward notes after_merge.0 after_merge.1 s m
          (find_new new_id after_merge.1 db.decisions refl fresh) refl found_s' found_m'
        ∙ ap₂ (λ i j. ok (commit_unmerge after_merge.1 i j steward notes after_merge.0)) id_s id_m

-- A merge that went through can be taken back, whoever asks: the reversal succeeds, restores every
-- column of every vessel call, and returns the service requests, the delays and the events to the
-- merged call, except for the events that the merge deleted because the survivor had them too,
-- which do not come back. The merged call stood for itself before, and ids are unique.
pub execute_unmerge-execute_merge :
    {S D : Type 0} (candidate_id : ℕ) (actor : Text) (manual : Bool) (custom : List (Key × Value))
    (new_id : ℕ) (db db' : Store S D) (decision : MergeDecision) (steward : Text)
    (notes : Option Text)
    → IsConsistent db
    → All (λ d. d.id ≢ new_id) db.decisions
    → ((m : VesselCall) → call_by_id decision.merged_record_id db.calls ≡ some m → IsActive m)
    → execute_merge candidate_id actor manual custom new_id db ≡ ok (db', decision)
    → (db'' : Store S D) × (execute_unmerge new_id steward notes db' ≡ ok db'')
      × IsRestored decision.survivor_record_id decision.merged_record_id db db''
execute_unmerge-execute_merge candidate_id actor manual custom new_id db db' decision steward notes
      c fresh active h =
    let r = execute_merge-HasMerged candidate_id actor manual custom new_id db (db', decision) h in
    let (found_s, found_m) =
      survivor_found r.candidate.source_record_1_id r.candidate.source_record_2_id r.v1 r.v2
        db.calls r.found_1 r.found_2 in
    let active_m =
      subst (λ p. (m : VesselCall) → call_by_id p.1.merged_record_id db.calls ≡ some m → IsActive m)
        (sym r.result) active in
    subst
      (λ p.
        (db'' : Store _ _) × (execute_unmerge new_id steward notes p.0 ≡ ok db'')
        × IsRestored p.1.survivor_record_id p.1.merged_record_id db db'')
      r.result
      (
        _,
        execute_unmerge-commit_merge r.candidate r.v1 r.v2 actor manual custom new_id db steward
            notes fresh found_s found_m,
        unfold commit_merge in
            commit_unmerge-IsRestored r.candidate r.v1 r.v2 actor manual custom new_id db steward
              notes c found_s found_m (active_m _ found_m),
      )
