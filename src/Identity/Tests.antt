-- ===== src/Identity/Tests.antt =====
-- The matcher and the merger at two calls of one ship, one of them with punctuation in the name.
use marine_time_motion_platf.Prelude.{
  ◌≤◌, ℕ, ◌≡◌, ◌≢◌, refl, subst, ◌⊎◌, ◌↔◌, true, false, [], ◌∷◌, none, some, arith,
}
use mathlib.Core.Option.{some-injective}
use marine_time_motion_platf.Prelude.Int.{◌-ℤ◌}
use marine_time_motion_platf.Prelude.Text.{Text, text, strip, is_space}
use marine_time_motion_platf.Identity.Record.{
  Column, Value, null, str, num, bool, VesselCall, vessel_name, imo_number, vcn, vessel_size_teu,
  is_merged, tenant_id,
}
use marine_time_motion_platf.Identity.Normalizer.{normalize}
use marine_time_motion_platf.Identity.Matcher.{
  Matcher, key_of, make_matcher, evaluate_pair, auto_merge_candidate, steward_review,
  blocked_by_conflict,
}
use marine_time_motion_platf.Identity.Matcher.Outcomes.{
  vcn_of, imo_of, AreShared, AreInConflict, evaluate_pair_no_review, evaluate_pair_blocked_iff,
}
use marine_time_motion_platf.Identity.Store.{
  Store, MatchCandidate, MergeDecision, evaluated, call_by_id,
}
use marine_time_motion_platf.Identity.Merger.{
  ok, execute_merge, commit_merge, execute_unmerge, transfer_events, has_duplicate,
}
use marine_time_motion_platf.Identity.Survivorship.{
  determine_survivor_record, survivor_score, max_numeric, resolve_field,
}
use marine_time_motion_platf.Identity.Survivorship.Choice.{IsFrom, resolve_field-IsFrom}
use marine_time_motion_platf.Identity.Merger.RoundTrip.{
  IsRestored, IsActive, IsConsistent, execute_unmerge-execute_merge,
}
use marine_time_motion_platf.Identity.Merger.Effect.{HasMoved, execute_merge-HasMoved}

abbrev aurora_columns : Text → ℕ → Column → Value
aurora_columns name teu vessel_name = str name
aurora_columns name teu vcn = str (text "VCN1")
aurora_columns name teu imo_number = str (text "9000001")
aurora_columns name teu vessel_size_teu = num teu
aurora_columns name teu is_merged = bool false
aurora_columns name teu tenant_id = str (text "port")
aurora_columns name teu _ = null

abbrev aurora : VesselCall
aurora = record { id = 1; created_at = 10; get = aurora_columns (text "MSC AURORA") 9000 }

abbrev aurora_again : VesselCall
aurora_again = record { id = 2; created_at = 20; get = aurora_columns (text "MSC-AURORA.") 9500 }

same_normal_form : normalize (some (text "MSC-AURORA.")) ≡ text "MSC AURORA"
unfolding normalize
same_normal_form = refl

abbrev config : Matcher
unfolding make_matcher
config = make_matcher none

share_vcn : AreShared (vcn_of aurora) (vcn_of aurora_again)
unfolding key_of strip is_space
share_vcn = ((λ e. cc), refl)

no_conflict : (t : Text) → ¬ AreInConflict t t
no_conflict t h = h.2 refl

evaluate_pair_no_review_example : (evaluate_pair config aurora aurora_again).status ≢ steward_review
unfolding make_matcher
evaluate_pair_no_review_example =
    evaluate_pair_no_review config aurora aurora_again (omega arith) (omega arith)

abbrev candidate : MatchCandidate
candidate = record {
  id = 5;
  source_record_1_id = 1;
  source_record_2_id = 2;
  match_score = 9900;
  status = evaluated auto_merge_candidate;
  conflict_detected = false;
}

abbrev blocked : MatchCandidate
blocked = record candidate { id = 6; conflict_detected = true }

-- The second call has an event that the first has too, and one of its own.
abbrev store : Store ℕ ℕ
store = record {
  calls = aurora ∷ aurora_again ∷ [];
  events =
      record {
        id = 1;
        vessel_call_id = 1;
        content = record { event_definition_id = 7; occurrence_index = 1 };
      }
      ∷ record {
        id = 2;
        vessel_call_id = 2;
        content = record { event_definition_id = 7; occurrence_index = 1 };
      }
      ∷ record {
        id = 3;
        vessel_call_id = 2;
        content = record { event_definition_id = 8; occurrence_index = 1 };
      }
      ∷ [];
  services = record { id = 4; vessel_call_id = 2; content = 0 } ∷ [];
  delays = [];
  candidates = candidate ∷ blocked ∷ [];
  evidences = [];
  decisions = [];
  audit = [];
}

store-IsConsistent : IsConsistent store
store-IsConsistent = omega arith

abbrev outcome : Store ℕ ℕ × MergeDecision
unfolding commit_merge
outcome = commit_merge candidate aurora aurora_again (text "ops") false [] 9 store

execute_merge-outcome : execute_merge 5 (text "ops") false [] 9 store ≡ ok (outcome.0, outcome.1)
unfolding execute_merge commit_merge
execute_merge-outcome = refl

-- The duplicate event is gone, and the other one has moved.
events_after :
    (outcome.0).events
    ≡ record {
      id = 1;
      vessel_call_id = 1;
      content = record { event_definition_id = 7; occurrence_index = 1 };
    }
      ∷ record {
        id = 3;
        vessel_call_id = 1;
        content = record { event_definition_id = 8; occurrence_index = 1 };
      }
      ∷ []
unfolding commit_merge transfer_events has_duplicate determine_survivor_record survivor_score ◌-ℤ◌
events_after = refl

merged-IsActive :
    (m : VesselCall) → call_by_id (outcome.1).merged_record_id store.calls ≡ some m → IsActive m
unfolding commit_merge determine_survivor_record survivor_score ◌-ℤ◌
merged-IsActive m e = subst IsActive (some-injective _ _ e) (refl, refl)

execute_unmerge-execute_merge_example :
    (db'' : Store ℕ ℕ) × (execute_unmerge 9 (text "steward") none (outcome.0) ≡ ok db'')
    × IsRestored (outcome.1).survivor_record_id (outcome.1).merged_record_id store db''
unfolding commit_merge
execute_unmerge-execute_merge_example =
    execute_unmerge-execute_merge 5 (text "ops") false [] 9 store (outcome.0) (outcome.1)
      (text "steward") none store-IsConsistent tt merged-IsActive execute_merge-outcome

execute_merge-HasMoved_example :
    HasMoved (outcome.1).survivor_record_id (outcome.1).merged_record_id store (outcome.0)
unfolding commit_merge
execute_merge-HasMoved_example =
    execute_merge-HasMoved 5 (text "ops") false [] 9 store (outcome.0) (outcome.1)
      store-IsConsistent execute_merge-outcome

evaluate_pair_blocked_iff_example :
    let r = evaluate_pair config aurora aurora_again in
    let conflict =
      AreInConflict (imo_of aurora) (imo_of aurora_again)
      ⊎ AreInConflict (vcn_of aurora) (vcn_of aurora_again) in
    ((r.status ≡ blocked_by_conflict) ↔ conflict)
    × (conflict → r.auto_merge_eligible ≡ false)
    × ((r.auto_merge_eligible ≡ true)
        ↔ ((¬ conflict) × (config.auto_merge_threshold ≤ r.match_score)))
    × ((r.auto_merge_eligible ≡ true) ↔ (r.status ≡ auto_merge_candidate))
evaluate_pair_blocked_iff_example = evaluate_pair_blocked_iff config aurora aurora_again

resolve_field-IsFrom_example :
    let r = resolve_field max_numeric (num 9000) (num 9500) 1 2 in
    IsFrom r.provenance (num 9000) (num 9500) 1 2 r.winner_value r.winning_record_id
    × ((r.winner_value ≡ null) ↔ ((num 9000 ≡ null) × (num 9500 ≡ null)))
resolve_field-IsFrom_example = resolve_field-IsFrom max_numeric (num 9000) (num 9500) 1 2
