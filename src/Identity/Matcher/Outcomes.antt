-- ===== src/Identity/Matcher/Outcomes.antt =====
-- When two vessel calls are blocked, merged automatically, reviewed or kept apart.
use marine_time_motion_platf.Prelude.{
  ℕ, ◌≤◌, ◌<◌, ◌≡◌, refl, ◌≢◌, ◌⊎◌, ◌↔◌, Bool, true, false, [], ◌∷◌, arith,
}
use marine_time_motion_platf.Prelude.Text.{Text, =ᵗ_iff}
use marine_time_motion_platf.Identity.Record.{Column, VesselCall}
use marine_time_motion_platf.Identity.Normalizer.{similarity}
use marine_time_motion_platf.Identity.Normalizer.Similarity.{similarity-le}
use marine_time_motion_platf.Identity.Matcher.{
  Matcher, auto_merge_candidate, steward_review, blocked_by_conflict, differ, agree, key_of,
  name_of, evidence, deterministic_match, final_score, disposition, evaluate_pair,
}
use marine_time_motion_platf.Identity.Matcher.Scores.{total-evidence-le, total-evidence_without_key}

-- Two keys that are both given and are not the same.
abbrev pub AreInConflict : Text → Text → Type 0
AreInConflict a b = (a ≢ []) × (b ≢ []) × (a ≢ b)

-- Two keys that are given and the same.
abbrev pub AreShared : Text → Text → Type 0
AreShared a b = (a ≢ []) × (a ≡ b)

differ_iff : (a b : Text) → (differ a b ≡ true) ↔ AreInConflict a b
differ_iff [] b = ground arith
differ_iff (x ∷ xs) [] = ground arith
differ_iff (x ∷ xs) (y ∷ ys) = ground (arith, =ᵗ_iff (x ∷ xs) (y ∷ ys))

agree_iff : (a b : Text) → (agree a b ≡ true) ↔ AreShared a b
agree_iff [] b = ground arith
agree_iff (x ∷ xs) [] = ground arith
agree_iff (x ∷ xs) (y ∷ ys) = ground (arith, =ᵗ_iff (x ∷ xs) (y ∷ ys))

abbrev pub vcn_of : VesselCall → Text
vcn_of v = key_of (v.get Column.vcn)

abbrev pub imo_of : VesselCall → Text
imo_of v = key_of (v.get Column.imo_number)

-- A pair is blocked exactly if the two calls are in conflict on the IMO number or the VCN, whatever the
-- thresholds and the score, and a pair in conflict is never eligible for an automatic merge. A pair is
-- eligible exactly if no key is in conflict and the score reaches the threshold, and then, and only
-- then, it has the status of a candidate.
pub evaluate_pair_blocked_iff :
    (m : Matcher) (v1 v2 : VesselCall)
    → let r = evaluate_pair m v1 v2 in
      let conflict =
        AreInConflict (imo_of v1) (imo_of v2) ⊎ AreInConflict (vcn_of v1) (vcn_of v2) in
      ((r.status ≡ blocked_by_conflict) ↔ conflict)
      × (conflict → r.auto_merge_eligible ≡ false)
      × ((r.auto_merge_eligible ≡ true) ↔ ((¬ conflict) × (m.auto_merge_threshold ≤ r.match_score)))
      × ((r.auto_merge_eligible ≡ true) ↔ (r.status ≡ auto_merge_candidate))
unfolding evaluate_pair disposition
evaluate_pair_blocked_iff m v1 v2 =
    let imo = differ_iff (imo_of v1) (imo_of v2) in
    let vcn = differ_iff (vcn_of v1) (vcn_of v2) in
    (ground (arith, imo, vcn), ground (arith, imo, vcn), ground (arith, imo, vcn), ground arith)

final_score-le :
    (decisive : Bool) (sim raw : ℕ) → raw ≤ 10000 → final_score decisive sim raw ≤ 10000
unfolding final_score
final_score-le decisive sim raw h = ground arith

abbrev name_similarity : VesselCall → VesselCall → ℕ
name_similarity v1 v2 =
    (similarity (name_of (v1.get Column.vessel_name)) (name_of (v2.get Column.vessel_name))).0

-- Two calls that share a VCN or an IMO number and are in conflict on neither are candidates for an
-- automatic merge, however different the rest, where the threshold is at most 0.98.
pub evaluate_pair_shared_key :
    (m : Matcher) (v1 v2 : VesselCall)
    → m.auto_merge_threshold ≤ 9800
    → AreShared (vcn_of v1) (vcn_of v2) ⊎ AreShared (imo_of v1) (imo_of v2)
    → ¬ AreInConflict (imo_of v1) (imo_of v2)
    → ¬ AreInConflict (vcn_of v1) (vcn_of v2)
    → (evaluate_pair m v1 v2).status ≡ auto_merge_candidate
unfolding evaluate_pair disposition deterministic_match final_score
evaluate_pair_shared_key m v1 v2 le shared imo vcn = ground (
  arith,
  differ_iff (imo_of v1) (imo_of v2),
  differ_iff (vcn_of v1) (vcn_of v2),
  agree_iff (imo_of v1) (imo_of v2),
  agree_iff (vcn_of v1) (vcn_of v2),
)

-- The score lies between 0 and 1 (10000), and six attributes are evaluated for every pair.
pub evaluate_pair_score-le :
    (m : Matcher) (v1 v2 : VesselCall)
    → ((evaluate_pair m v1 v2).match_score ≤ 10000)
      × ((evaluate_pair m v1 v2).total_attributes_evaluated ≡ 6)
unfolding evaluate_pair evidence
evaluate_pair_score-le m v1 v2 = (
  final_score-le _ (name_similarity v1 v2) _
      (total-evidence-le v1 v2 (name_similarity v1 v2) (similarity-le _ _)),
  refl,
)

-- Where the review threshold lies above 0.55 and the merge threshold is not above 0.98, as in the
-- configuration, no pair is ever given to a steward for review: a shared key decides, and without
-- one the score stays below the threshold.
pub evaluate_pair_no_review :
    (m : Matcher) (v1 v2 : VesselCall)
    → m.auto_merge_threshold ≤ 9800
    → 5500 < m.steward_review_threshold
    → (evaluate_pair m v1 v2).status ≢ steward_review
unfolding evaluate_pair disposition deterministic_match final_score
evaluate_pair_no_review m v1 v2 merge review =
    ground (arith, total-evidence_without_key v1 v2 (name_similarity v1 v2) (similarity-le _ _))
