-- ===== src/Identity/Matcher.antt =====
-- apps/api/services/identity/matcher.py. Scores and weights are in units of 1/10000, the four
-- digits that the code rounds to; the texts of explanations are left out.
pub mod Scores
pub mod Outcomes
use marine_time_motion_platf.Prelude.{
  ℕ, ◌+◌, ◌*◌, ◌-◌, ◌≤◌, Bool, true, false, ◌&&◌, ◌||◌, not, List, [], ◌∷◌, ◌++◌, ltb, leb, ◌==◌,
  length, if◌then◌else◌, Option, none, some,
}
use Prim.Native.Nat.{min, max}
use mathlib.Core.Option.{get_or}
use marine_time_motion_platf.Prelude.Round.{round_half_even}
use marine_time_motion_platf.Prelude.Text.{Text, ◌=ᵗ◌, non_empty, strip, upper}
use marine_time_motion_platf.Identity.Record.{
  Value, null, str, num, bool, Column, VesselCall, text_or_empty, number_or_zero, is_truthy,
  ◌or_else◌,
}
use marine_time_motion_platf.Identity.Normalizer.{similarity}

pub data Agreement : Type 0 where
  agreed disagreed partial missing : Agreement

pub data Attribute : Type 0 where
  vessel_name vcn imo_number vessel_type flag dimensions : Attribute

pub record AttributeEvidence : Type 0 where
  pub attribute : Attribute
  pub value_1 : Value
  pub value_2 : Value
  pub agreement : Agreement
  pub weight : ℕ
  pub contribution : ℕ

pub data MatchType : Type 0 where
  deterministic probabilistic : MatchType

pub data Status : Type 0 where
  auto_merge_candidate steward_review separate blocked_by_conflict : Status

pub data Conflict : Type 0 where
  imo_numbers vcns : Text → Text → Conflict

pub record MatchResult : Type 0 where
  pub match_score : ℕ
  pub match_type : MatchType
  pub status : Status
  pub conflict_detected : Bool
  pub conflict_reasons : List Conflict
  pub evidence_breakdown : List AttributeEvidence
  pub total_attributes_evaluated : ℕ
  pub auto_merge_eligible : Bool

-- `IdentityMatcher.__init__`: the thresholds of the configuration file.
pub record Matcher : Type 0 where
  pub auto_merge_threshold : ℕ
  pub steward_review_threshold : ℕ

-- `float(th.get(key, default))` on the section "thresholds"; a file that cannot be read leaves
-- both defaults.
unfoldable pub make_matcher : Option (Option ℕ × Option ℕ) → Matcher
make_matcher none = record { auto_merge_threshold = 9800; steward_review_threshold = 8500 }
make_matcher (some (auto, review)) = record {
  auto_merge_threshold = get_or auto 9800;
  steward_review_threshold = get_or review 8500;
}

abbrev weight_of : Attribute → ℕ
weight_of vessel_name = 4000
weight_of vcn = 2500
weight_of imo_number = 2000
weight_of vessel_type = 500
weight_of flag = 500
weight_of dimensions = 500

-- Two texts that are both there and differ.
abbrev pub differ : Text → Text → Bool
differ a b = non_empty a && non_empty b && not (a =ᵗ b)

-- Two texts that are both there and agree.
abbrev pub agree : Text → Text → Bool
agree a b = non_empty a && non_empty b && (a =ᵗ b)

-- `(value or "").strip()`, and with `.upper()`.
unfoldable pub key_of : Value → Text
key_of v = strip (text_or_empty v)

label_of : Value → Text
label_of v = upper (strip (text_or_empty v))

-- `text or None`
text_value : Text → Value
text_value t = if non_empty t then str t else null

-- Evidence on a key or a label: the full weight if the two sides agree, else nothing.
compare_texts : Attribute → Text → Text → AttributeEvidence
compare_texts a t1 t2 = record {
  attribute = a;
  value_1 = text_value t1;
  value_2 = text_value t2;
  agreement =
      if non_empty t1 && non_empty t2 then if t1 =ᵗ t2 then agreed else disagreed else missing;
  weight = weight_of a;
  contribution = if agree t1 t2 then weight_of a else 0;
}

name_agreement : ℕ → Agreement
name_agreement sim =
    if leb 9800 sim
    then agreed
    else if leb 7000 sim
    then partial
    else if ltb 0 sim
    then disagreed
    else missing

compare_names : VesselCall → VesselCall → ℕ → AttributeEvidence
compare_names v1 v2 sim = record {
  attribute = vessel_name;
  value_1 = v1.get Column.vessel_name;
  value_2 = v2.get Column.vessel_name;
  agreement = name_agreement sim;
  weight = weight_of vessel_name;
  contribution = round_half_even (sim * weight_of vessel_name) 10000;
}

-- One dimension: whether it is compared, and whether it matches within a tolerance.
compare_dimension : ℕ → ℕ → ℕ → ℕ × ℕ
compare_dimension tolerance a b =
    if not (a == 0) && not (b == 0)
    then (1, if leb (max a b - min a b) tolerance then 1 else 0)
    else (0, 0)

-- Length overall and gross tonnage within 0.01, the capacity in TEU exactly.
dimension_matches : VesselCall → VesselCall → ℕ × ℕ
dimension_matches v1 v2 =
    let pair = λ (c : Column) (tolerance : ℕ).
      compare_dimension tolerance (number_or_zero (v1.get c)) (number_or_zero (v2.get c)) in
    let (n1, m1) = pair Column.loa_value 10 in
    let (n2, m2) = pair Column.vessel_size_teu 0 in
    let (n3, m3) = pair Column.grt 10 in (n1 + n2 + n3, m1 + m2 + m3)

shown_dimension : VesselCall → Value
shown_dimension v = v.get Column.loa_value or_else (v.get Column.vessel_size_teu or_else null)

compare_dimensions : VesselCall → VesselCall → AttributeEvidence
compare_dimensions v1 v2 =
    let (compared, matches) = dimension_matches v1 v2 in
    record {
      attribute = dimensions;
      value_1 = shown_dimension v1;
      value_2 = shown_dimension v2;
      agreement =
          if ltb 0 compared
          then if matches == compared then agreed else if ltb 0 matches then partial else disagreed
          else missing;
      weight = weight_of dimensions;
      contribution =
          if ltb 0 compared then round_half_even (matches * weight_of dimensions) compared else 0;
    }

pub total : List AttributeEvidence → ℕ
total [] = 0
total (e ∷ es) = e.contribution + total es

pub evidence : VesselCall → VesselCall → ℕ → List AttributeEvidence
evidence v1 v2 sim =
    compare_names v1 v2 sim
    ∷ compare_texts vcn (key_of (v1.get Column.vcn)) (key_of (v2.get Column.vcn))
    ∷ compare_texts imo_number (key_of (v1.get Column.imo_number))
        (key_of (v2.get Column.imo_number))
    ∷ compare_texts vessel_type (label_of (v1.get Column.vessel_type))
        (label_of (v2.get Column.vessel_type))
    ∷ compare_texts flag (label_of (v1.get Column.flag)) (label_of (v2.get Column.flag))
    ∷ compare_dimensions v1 v2
    ∷ []

-- Stage 1: the conflicts on IMO number and VCN, in this order.
conflicts : Text → Text → Text → Text → List Conflict
conflicts imo1 imo2 vcn1 vcn2 =
    (if differ imo1 imo2 then imo_numbers imo1 imo2 ∷ [] else [])
    ++ (if differ vcn1 vcn2 then vcns vcn1 vcn2 ∷ [] else [])

-- A decisive key: equal VCNs or equal IMO numbers, where nothing conflicts.
deterministic_match : Text → Text → Text → Text → Bool
deterministic_match imo1 imo2 vcn1 vcn2 =
    let conflict = differ imo1 imo2 || differ vcn1 vcn2 in
    (agree vcn1 vcn2 && not conflict) || (agree imo1 imo2 && not conflict && not (differ vcn1 vcn2))

pub final_score : Bool → ℕ → ℕ → ℕ
final_score decisive sim raw =
    if decisive then max raw (if leb 9800 sim then 9900 else 9800) else min 10000 (max 0 raw)

-- The status, and whether the pair may be merged automatically.
disposition : Matcher → Bool → ℕ → Status × Bool
disposition m conflict score =
    if conflict
    then (blocked_by_conflict, false)
    else if leb m.auto_merge_threshold score
    then (auto_merge_candidate, true)
    else if leb m.steward_review_threshold score
    then (steward_review, false)
    else (separate, false)

-- The name of a call as the argument of `similarity`.
abbrev name_of : Value → Option Text
name_of (str t) = some t
name_of null = none
name_of (num n) = none
name_of (bool b) = none

pub evaluate_pair : Matcher → VesselCall → VesselCall → MatchResult
evaluate_pair m v1 v2 =
    let imo1 = key_of (v1.get Column.imo_number) in
    let imo2 = key_of (v2.get Column.imo_number) in
    let vcn1 = key_of (v1.get Column.vcn) in
    let vcn2 = key_of (v2.get Column.vcn) in
    let conflict = differ imo1 imo2 || differ vcn1 vcn2 in
    let sim =
      (similarity (name_of (v1.get Column.vessel_name)) (name_of (v2.get Column.vessel_name))).0 in
    let evidences = evidence v1 v2 sim in
    let decisive = deterministic_match imo1 imo2 vcn1 vcn2 && not conflict in
    let score = final_score decisive sim (total evidences) in
    let (status, eligible) = disposition m conflict score in
    record {
      match_score = score;
      match_type = if decisive then deterministic else probabilistic;
      status = status;
      conflict_detected = conflict;
      conflict_reasons = conflicts imo1 imo2 vcn1 vcn2;
      evidence_breakdown = evidences;
      total_attributes_evaluated = length evidences;
      auto_merge_eligible = eligible;
    }
