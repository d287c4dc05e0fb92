-- ===== src/Criticality/Scores.antt =====
-- The bounds of the scores, and that they grow with what they are computed from.
use marine_time_motion_platf.Prelude.{ℕ, ◌*◌, ◌≤◌, ◌<◌, ◌≡◌, Option, none, some, arith}
use marine_time_motion_platf.Prelude.Int.{ℤ, ◌≤ℤ◌}
use marine_time_motion_platf.Prelude.Round.{
  round_half_even-le, round_half_even_ge, round_half_even_mono,
}
use marine_time_motion_platf.Criticality.{
  Band, low, moderate, high, critical, Weights, Criticality, score_by, weight, total_weight,
  weighted, band_of, criticality_of, compute_component_scores,
}

score_by_bounds : (a b c d : ℕ) (x : ℤ) → (1 ≤ score_by a b c d x) × (score_by a b c d x ≤ 5)
unfolding score_by
score_by_bounds a b c d x = (ground arith, ground arith)

score_by_mono :
    (a b c d : ℕ) (x y : ℤ)
    → a ≤ b
    → b ≤ c
    → c ≤ d
    → x ≤ℤ y
    → score_by a b c d x ≤ score_by a b c d y
unfolding score_by
score_by_mono a b c d x y ab bc cd le = ground arith

scaled_bounds : (k a : ℕ) → (1 ≤ a) × (a ≤ 5) → (k ≤ k * a) × (k * a ≤ k * 5)
scaled_bounds k a h = (grind arith, grind arith)

scaled_mono : (k a b : ℕ) → a ≤ b → k * a ≤ k * b
scaled_mono k a b h = grind arith

weighted_bounds :
    (w : Option Weights) (a b c : ℕ)
    → (1 ≤ a) × (a ≤ 5)
    → (1 ≤ b) × (b ≤ 5)
    → (1 ≤ c) × (c ≤ 5)
    → (total_weight w * 100 ≤ 100 * weighted w a b c)
      × (100 * weighted w a b c ≤ total_weight w * 500)
unfolding weighted total_weight
weighted_bounds none a b c ha hb hc = (omega arith, omega arith)
weighted_bounds (some w) a b c ha hb hc =
    let p = scaled_bounds (weight w.duration) a ha in
    let q = scaled_bounds (weight w.variability) b hb in
    let r = scaled_bounds (weight w.tail_risk) c hc in
    (omega (arith, p, q, r), omega (arith, p, q, r))

weighted_mono :
    (w : Option Weights) (a b c a' b' c' : ℕ)
    → a ≤ a'
    → b ≤ b'
    → c ≤ c'
    → weighted w a b c ≤ weighted w a' b' c'
unfolding weighted
weighted_mono none a b c a' b' c' ha hb hc = omega arith
weighted_mono (some w) a b c a' b' c' ha hb hc = omega (
  arith,
  scaled_mono (weight w.duration) a a' ha,
  scaled_mono (weight w.variability) b b' hb,
  scaled_mono (weight w.tail_risk) c c' hc,
)

-- The order of the bands.
abbrev pub level : Band → ℕ
level low = 1
level moderate = 2
level high = 3
level critical = 4

band_of_mono : (m n : ℕ) → m ≤ n → level (band_of m) ≤ level (band_of n)
unfolding band_of
band_of_mono m n le = ground arith

-- The three scores are from 1 to 5 and the overall score is from 1.00 to 5.00.
abbrev pub IsBounded : Criticality → Type 0
IsBounded k =
    ((1 ≤ k.duration_score) × (k.duration_score ≤ 5))
    × ((1 ≤ k.variability_score) × (k.variability_score ≤ 5))
    × ((1 ≤ k.tail_risk_score) × (k.tail_risk_score ≤ 5))
    × ((100 ≤ k.overall_score) × (k.overall_score ≤ 500))

criticality_of-IsBounded :
    (x y z : ℤ) (w : Option Weights) → 0 < total_weight w → IsBounded (criticality_of x y z w)
unfolding criticality_of
criticality_of-IsBounded x y z w some_weight =
    let a = score_by_bounds 2000000 6000000 18000000 36000000 x in
    let b = score_by_bounds 200000 500000 800000 1200000 y in
    let c = score_by_bounds 1300000 1800000 2500000 3500000 z in
    let (least, most) = weighted_bounds w _ _ _ a b c in
    (
      a,
      b,
      c,
      (
        round_half_even_ge _ (total_weight w) 100 some_weight least,
        round_half_even-le _ (total_weight w) 500 some_weight most,
      ),
    )

criticality_of_mono :
    (x x' y y' z z' : ℤ) (w : Option Weights)
    → 0 < total_weight w
    → x ≤ℤ x'
    → y ≤ℤ y'
    → z ≤ℤ z'
    → (criticality_of x y z w).overall_score ≤ (criticality_of x' y' z' w).overall_score
unfolding criticality_of
criticality_of_mono x x' y y' z z' w some_weight le_x le_y le_z =
    let a =
      score_by_mono 2000000 6000000 18000000 36000000 x x' (omega arith) (omega arith) (omega arith)
        le_x in
    let b =
      score_by_mono 200000 500000 800000 1200000 y y' (omega arith) (omega arith) (omega arith)
        le_y in
    let c =
      score_by_mono 1300000 1800000 2500000 3500000 z z' (omega arith) (omega arith) (omega arith)
        le_z in
    round_half_even_mono _ _ (total_weight w) some_weight
      (scaled_mono 100 _ _ (weighted_mono w _ _ _ _ _ _ a b c))

band_grows :
    (x x' y y' z z' : ℤ) (w : Option Weights)
    → (criticality_of x y z w).overall_score ≤ (criticality_of x' y' z' w).overall_score
    → level (criticality_of x y z w).band ≤ level (criticality_of x' y' z' w).band
unfolding criticality_of
band_grows x x' y y' z z' w grows = band_of_mono _ _ grows

-- With weights of which one is not zero, or without weights, there is a result for any input; its
-- component scores are from 1 to 5 and its overall score from 1.00 to 5.00; and where the duration, the
-- variation and the tail risk are no smaller, with the same weights, neither the overall score nor the
-- band is lower.
pub compute_component_scores-IsBounded :
    (x x' y y' z z' : ℤ) (w : Option Weights)
    → 0 < total_weight w
    → x ≤ℤ x'
    → y ≤ℤ y'
    → z ≤ℤ z'
    → (k k' : Criticality) × (compute_component_scores x y z w ≡ some k)
      × (compute_component_scores x' y' z' w ≡ some k')
      × IsBounded k
      × IsBounded k'
      × (k.overall_score ≤ k'.overall_score)
      × (level k.band ≤ level k'.band)
unfolding compute_component_scores
compute_component_scores-IsBounded x x' y y' z z' w some_weight le_x le_y le_z =
    let k = criticality_of x y z w in
    let k' = criticality_of x' y' z' w in
    let grows = criticality_of_mono x x' y y' z z' w some_weight le_x le_y le_z in
    (
      k,
      k',
      ground arith,
      ground arith,
      criticality_of-IsBounded x y z w some_weight,
      criticality_of-IsBounded x' y' z' w some_weight,
      grows,
      band_grows x x' y y' z z' w grows,
    )
