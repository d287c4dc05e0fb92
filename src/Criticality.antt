-- ===== src/Criticality.antt =====
-- apps/api/services/criticality/engine.py, `compute_component_scores`. Hours, variation and tail risk
-- are in millionths, scores are whole and the overall score is in hundredths, the digits that the code
-- rounds to. Weights are not negative, in units of 1/30000, of which a third is 10000; quotients are
-- exact. The rounded inputs that the result repeats are left out.
pub mod Scores
mod Tests
use marine_time_motion_platf.Prelude.{
  ℕ, ◌+◌, ◌*◌, Bool, true, false, ltb, ◌==◌, if◌then◌else◌, Option, none, some,
}
use mathlib.Core.Option.{get_or}
use marine_time_motion_platf.Prelude.Int.{ℤ, pos, ltb_ℤ}
use marine_time_motion_platf.Prelude.Round.{round_half_even}

pub data Band : Type 0 where
  low moderate high critical : Band

-- The governed weights, each of which may be missing.
pub record Weights : Type 0 where
  pub duration : Option ℕ
  pub variability : Option ℕ
  pub tail_risk : Option ℕ

pub record Criticality : Type 0 where
  pub duration_score : ℕ
  pub variability_score : ℕ
  pub tail_risk_score : ℕ
  pub overall_score : ℕ
  pub band : Band

-- The score by four limits.
unfoldable pub score_by : (a b c d : ℕ) → ℤ → ℕ
score_by a b c d x =
    if ltb_ℤ x (pos a)
    then 1
    else if ltb_ℤ x (pos b)
    then 2
    else if ltb_ℤ x (pos c)
    then 3
    else if ltb_ℤ x (pos d)
    then 4
    else 5

abbrev pub duration_score_of : ℤ → ℕ
duration_score_of x = score_by 2000000 6000000 18000000 36000000 x

abbrev pub variability_score_of : ℤ → ℕ
variability_score_of x = score_by 200000 500000 800000 1200000 x

abbrev pub tail_score_of : ℤ → ℕ
tail_score_of x = score_by 1300000 1800000 2500000 3500000 x

-- `weights.get(name, 1.0 / 3.0)`
abbrev pub weight : Option ℕ → ℕ
weight w = get_or w 10000

unfoldable pub total_weight : Option Weights → ℕ
total_weight none = 3
total_weight (some w) = weight w.duration + weight w.variability + weight w.tail_risk

unfoldable pub weighted : Option Weights → (duration variability tail : ℕ) → ℕ
weighted none a b c = a + b + c
weighted (some w) a b c = weight w.duration * a + weight w.variability * b + weight w.tail_risk * c

unfoldable pub band_of : ℕ → Band
band_of overall =
    if ltb overall 200
    then low
    else if ltb overall 300
    then moderate
    else if ltb overall 400
    then high
    else critical

-- The result, where the weights have a sum to divide by.
unfoldable pub criticality_of :
    (duration_hours cv tail_risk_ratio : ℤ) → Option Weights → Criticality
criticality_of duration_hours cv tail_risk_ratio weights =
    let a = duration_score_of duration_hours in
    let b = variability_score_of cv in
    let c = tail_score_of tail_risk_ratio in
    let overall = round_half_even (100 * weighted weights a b c) (total_weight weights) in
    record {
      duration_score = a;
      variability_score = b;
      tail_risk_score = c;
      overall_score = overall;
      band = band_of overall;
    }

-- Without any weight the division by their sum fails.
unfoldable pub compute_component_scores :
    (duration_hours cv tail_risk_ratio : ℤ) → Option Weights → Option Criticality
compute_component_scores duration_hours cv tail_risk_ratio weights =
    if total_weight weights == 0
    then none
    else some (criticality_of duration_hours cv tail_risk_ratio weights)
