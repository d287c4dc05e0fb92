-- ===== src/Criticality/Tests.antt =====
-- A stage of five hours beside one of twenty, with the default weights and with governed ones.
use marine_time_motion_platf.Prelude.{◌≡◌, refl, ◌≤◌, none, some, arith}
use marine_time_motion_platf.Prelude.Int.{pos}
use marine_time_motion_platf.Prelude.Round.{round_half_even}
use marine_time_motion_platf.Criticality.{
  Weights, Criticality, moderate, score_by, total_weight, weighted, band_of, criticality_of,
  compute_component_scores,
}
use marine_time_motion_platf.Criticality.Scores.{
  IsBounded, level, compute_component_scores-IsBounded,
}

-- Scores 2, 3 and 1: the mean is 2.
five_hours :
    compute_component_scores (pos 5000000) (pos 500000) (pos 1200000) none
    ≡ some (record {
      duration_score = 2;
      variability_score = 3;
      tail_risk_score = 1;
      overall_score = 200;
      band = moderate;
    })
unfolding compute_component_scores criticality_of score_by total_weight weighted band_of
    round_half_even
five_hours = refl

-- A missing weight counts as a third.
abbrev mostly_duration : Weights
mostly_duration = record { duration = some 15000; variability = none; tail_risk = some 0 }

compute_component_scores-IsBounded_example :
    (k k' : Criticality) × (compute_component_scores
        (pos 5000000)
        (pos 500000)
        (pos 1200000)
        (some mostly_duration)
      ≡ some k)
    × (compute_component_scores (pos 20000000) (pos 500000) (pos 1900000) (some mostly_duration)
        ≡ some k')
    × IsBounded k
    × IsBounded k'
    × (k.overall_score ≤ k'.overall_score)
    × (level k.band ≤ level k'.band)
unfolding total_weight
compute_component_scores-IsBounded_example =
    compute_component_scores-IsBounded (pos 5000000) (pos 20000000) (pos 500000) (pos 500000)
      (pos 1200000) (pos 1900000) (some mostly_duration) (omega arith) (omega arith) (omega arith)
      (omega arith)
