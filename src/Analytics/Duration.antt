-- ===== src/Analytics/Duration.antt =====
-- apps/api/services/analytics/duration_semantics.py. Times are in microseconds and hours in millionths,
-- the six digits that the code rounds to; ratios are in units of 1/10000. Quotients are exact. The
-- formula version, which is passed through, is left out.
pub mod Semantics
use marine_time_motion_platf.Prelude.{
  ℕ, ◌+◌, ◌-◌, ◌*◌, Bool, true, false, ◌&&◌, ◌||◌, not, List, [], ◌∷◌, leb, ◌==◌, if◌then◌else◌,
  Option, none, some,
}
use marine_time_motion_platf.Prelude.Int.{ℤ, pos, negsuc, sub_ℕ, neg_part, ◌+ℤ◌, ◌-ℤ◌, ltb_ℤ}
use marine_time_motion_platf.Prelude.Round.{round_half_even}

pub data Concept : Type 0 where
  lead_time planning_lead_time scheduling_gap execution_delay target_variance : Concept
  waiting_time service_time delay_frequency early_delivery : Concept

pub data Measure : Type 0 where
  hours ratio : Measure

pub data Input : Type 0 where
  start_actual end_actual submission_time requested_service_time scheduled_time served_time : Input
  actual_value target_value : Input

pub data Reason : Type 0 where
  missing : Input → Reason
  no_waiting_stages no_service_stages no_eligible_events no_execution_delay : Reason

-- "AVAILABLE" with a value, or "UNAVAILABLE" with the reason.
pub data Status : Type 0 where
  available : ℤ → Status
  unavailable : Reason → Status

pub record SemanticDurationResult : Type 0 where
  pub concept : Concept
  pub status : Status
  pub unit : Measure
  pub is_early_delivery : Bool
  pub early_hours : Option ℕ

abbrev pub result : Concept → Status → SemanticDurationResult
result c s = record {
  concept = c;
  status = s;
  unit = hours;
  is_early_delivery = false;
  early_hours = none;
}

-- `round((end - start).total_seconds() / 3600.0, 6)`; one millionth of an hour is 3600 microseconds.
unfoldable pub hours_between : ℕ → ℕ → ℤ
hours_between start end =
    if leb start end
    then pos (round_half_even (end - start) 3600)
    else sub_ℕ 0 (round_half_even (start - end) 3600)

-- The shape that four of the concepts share: from one timestamp to a later one, which may be missing.
unfoldable pub elapsed : Input → Input → Option ℕ → Option ℕ → Status
elapsed i j none end = unavailable (missing i)
elapsed i j (some start) none = unavailable (missing j)
elapsed i j (some start) (some end) = available (hours_between start end)

unfoldable pub compute_lead_time : Option ℕ → Option ℕ → SemanticDurationResult
compute_lead_time start end = result lead_time (elapsed start_actual end_actual start end)

unfoldable pub compute_planning_lead_time : Option ℕ → Option ℕ → SemanticDurationResult
compute_planning_lead_time submission requested =
    result planning_lead_time (elapsed submission_time requested_service_time submission requested)

unfoldable pub compute_scheduling_gap : Option ℕ → Option ℕ → SemanticDurationResult
compute_scheduling_gap requested scheduled =
    result scheduling_gap (elapsed requested_service_time scheduled_time requested scheduled)

abbrev pub is_negative : ℤ → Bool
is_negative z = ltb_ℤ z (pos 0)

abbrev pub is_early : Status → Bool
is_early (available z) = is_negative z
is_early (unavailable r) = false

unfoldable pub compute_execution_delay : Option ℕ → Option ℕ → SemanticDurationResult
compute_execution_delay scheduled served =
    let status = elapsed scheduled_time served_time scheduled served in
    record (result execution_delay status) { is_early_delivery = is_early status }

unfoldable pub compute_target_variance : Option ℤ → Option ℤ → SemanticDurationResult
compute_target_variance none target = result target_variance (unavailable (missing actual_value))
compute_target_variance (some a) none = result target_variance (unavailable (missing target_value))
compute_target_variance (some a) (some t) = result target_variance (available (a -ℤ t))

pub data TimeCategory : Type 0 where
  passive_wait hold waiting active_service service other : TimeCategory

pub record StageTime : Type 0 where
  pub time_category : TimeCategory
  pub duration_hours : Option ℤ

abbrev pub is_waiting : TimeCategory → Bool
is_waiting passive_wait = true
is_waiting hold = true
is_waiting waiting = true
is_waiting active_service = false
is_waiting service = false
is_waiting other = false

abbrev pub is_service : TimeCategory → Bool
is_service active_service = true
is_service service = true
is_service passive_wait = false
is_service hold = false
is_service waiting = false
is_service other = false

-- One turn of the loop of the two sums; the total is there once a stage has counted.
abbrev pub add_stage : (TimeCategory → Bool) → Option ℤ → StageTime → Option ℤ
add_stage counts total s = elim s.duration_hours [
  | none ↦ total
  | some d ↦
      if counts s.time_category then some (elim total [ none ↦ d | some t ↦ t +ℤ d ]) else total
]

unfoldable pub total_over : (TimeCategory → Bool) → Option ℤ → List StageTime → Option ℤ
total_over counts total [] = total
total_over counts total (s ∷ stages) = total_over counts (add_stage counts total s) stages

abbrev or_unavailable : Reason → Option ℤ → Status
or_unavailable r none = unavailable r
or_unavailable r (some z) = available z

unfoldable pub compute_waiting_time : List StageTime → SemanticDurationResult
unfolding total_over
compute_waiting_time stages =
    result waiting_time (or_unavailable no_waiting_stages (total_over is_waiting none stages))

unfoldable pub compute_service_time : List StageTime → SemanticDurationResult
unfolding total_over
compute_service_time stages =
    result service_time (or_unavailable no_service_stages (total_over is_service none stages))

-- The two counts are natural numbers.
unfoldable pub compute_delay_frequency : (delayed total : ℕ) → SemanticDurationResult
compute_delay_frequency delayed total =
    record (result delay_frequency (
      if total == 0
      then unavailable no_eligible_events
      else available (pos (round_half_even (delayed * 10000) total)))) { unit = ratio }

unfoldable pub compute_early_delivery : Option ℤ → SemanticDurationResult
compute_early_delivery none = result early_delivery (unavailable no_execution_delay)
compute_early_delivery (some delay) =
    record (result early_delivery (available (if is_negative delay then delay else pos 0))) {
      is_early_delivery = is_negative delay;
      early_hours = some (if is_negative delay then neg_part delay else 0);
    }
