-- ===== src/Identity/Matcher/Scores.antt =====
-- The parts of a match score and their sum.
use marine_time_motion_platf.Prelude.{
  ℕ, ◌*◌, ◌≤◌, ◌≡◌, false, arith, if◌then◌else◌, ltb, Bool-cases, inl, inr,
}
use marine_time_motion_platf.Prelude.Round.{round_half_even, round_half_even-le}
use marine_time_motion_platf.Prelude.Text.{Text}
use marine_time_motion_platf.Identity.Record.{Column, VesselCall}
use marine_time_motion_platf.Identity.Matcher.{
  Attribute, AttributeEvidence, weight_of, agree, key_of, label_of, compare_texts, compare_names,
  compare_dimension, dimension_matches, compare_dimensions, total, evidence,
}

-- The contribution of an attribute is at most its weight.
abbrev IsBounded : ℕ → AttributeEvidence → Type 0
IsBounded w e = e.contribution ≤ w

compare_texts-IsBounded :
    (a : Attribute) (t1 t2 : Text) → IsBounded (weight_of a) (compare_texts a t1 t2)
unfolding compare_texts
compare_texts-IsBounded a t1 t2 = ground arith

compare_names-IsBounded :
    (v1 v2 : VesselCall) (sim : ℕ) → sim ≤ 10000 → IsBounded 4000 (compare_names v1 v2 sim)
unfolding compare_names
compare_names-IsBounded v1 v2 sim h =
    round_half_even-le (sim * 4000) 10000 4000 (omega arith) (omega arith)

compare_dimension-le :
    (tolerance a b : ℕ) → (compare_dimension tolerance a b).1 ≤ (compare_dimension tolerance a b).0
unfolding compare_dimension
compare_dimension-le tolerance a b = ground arith

dimension_matches-le :
    (v1 v2 : VesselCall) → (dimension_matches v1 v2).1 ≤ (dimension_matches v1 v2).0
unfolding dimension_matches
dimension_matches-le v1 v2 = omega (arith, compare_dimension-le)

share-le :
    (compared matches w : ℕ)
    → matches ≤ compared
    → (if ltb 0 compared then round_half_even (matches * w) compared else 0) ≤ w
share-le compared matches w h = elim (Bool-cases (ltb 0 compared)) [
  | inl positive ↦
      rw positive (round_half_even-le (matches * w) compared w (ground arith) (grind arith))
  | inr none_compared ↦ rw none_compared (omega arith)
]

compare_dimensions-IsBounded : (v1 v2 : VesselCall) → IsBounded 500 (compare_dimensions v1 v2)
unfolding compare_dimensions
compare_dimensions-IsBounded v1 v2 = share-le _ _ _ (dimension_matches-le v1 v2)

compare_texts_differ :
    (a : Attribute) (t1 t2 : Text) → agree t1 t2 ≡ false → (compare_texts a t1 t2).contribution ≡ 0
unfolding compare_texts
compare_texts_differ a t1 t2 h = rw h

-- The contributions add up to 1 at most.
pub total-evidence-le :
    (v1 v2 : VesselCall) (sim : ℕ) → sim ≤ 10000 → total (evidence v1 v2 sim) ≤ 10000
unfolding evidence total
total-evidence-le v1 v2 sim h = omega (
  arith,
  compare_names-IsBounded v1 v2 sim h,
  compare_texts-IsBounded Attribute.vcn (key_of (v1.get Column.vcn)) (key_of (v2.get Column.vcn)),
  compare_texts-IsBounded Attribute.imo_number (key_of (v1.get Column.imo_number))
      (key_of (v2.get Column.imo_number)),
  compare_texts-IsBounded Attribute.vessel_type (label_of (v1.get Column.vessel_type))
      (label_of (v2.get Column.vessel_type)),
  compare_texts-IsBounded Attribute.flag (label_of (v1.get Column.flag))
      (label_of (v2.get Column.flag)),
  compare_dimensions-IsBounded v1 v2,
)

-- Without an agreement on the VCN or the IMO number they add up to 0.55 at most.
pub total-evidence_without_key :
    (v1 v2 : VesselCall) (sim : ℕ)
    → sim ≤ 10000
    → agree (key_of (v1.get Column.vcn)) (key_of (v2.get Column.vcn)) ≡ false
    → agree (key_of (v1.get Column.imo_number)) (key_of (v2.get Column.imo_number)) ≡ false
    → total (evidence v1 v2 sim) ≤ 5500
unfolding evidence total
total-evidence_without_key v1 v2 sim h no_vcn no_imo = omega (
  arith,
  compare_names-IsBounded v1 v2 sim h,
  compare_texts_differ Attribute.vcn _ _ no_vcn,
  compare_texts_differ Attribute.imo_number _ _ no_imo,
  compare_texts-IsBounded Attribute.vessel_type (label_of (v1.get Column.vessel_type))
      (label_of (v2.get Column.vessel_type)),
  compare_texts-IsBounded Attribute.flag (label_of (v1.get Column.flag))
      (label_of (v2.get Column.flag)),
  compare_dimensions-IsBounded v1 v2,
)
