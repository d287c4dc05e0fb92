-- ===== src/Analytics/Duration/Semantics.antt =====
-- What the durations of one service mean together.
use marine_time_motion_platf.Prelude.{
  ℕ, ◌+◌, ◌-◌, ◌*◌, ◌≤◌, ◌<◌, ◌≡◌, refl, inl, inr, Bool, true, ◌||◌, List, [], ◌∷◌, arith,
  if◌then◌else◌, Option, none, some, Option-cases,
}
use marine_time_motion_platf.Prelude.Int.{
  ℤ, pos, pos_part, neg_part, ◌+ℤ◌, ◌≤ℤ◌, +ℤ_parts, +ℤ_rotate, +ℤ_assoc, +ℤ_comm,
}
use marine_time_motion_platf.Prelude.Round.{round_half_even_near}
use marine_time_motion_platf.Analytics.Duration.{
  available, hours_between, elapsed, compute_lead_time, compute_planning_lead_time,
  compute_scheduling_gap, compute_execution_delay, is_negative, TimeCategory, StageTime, is_waiting,
  is_service, add_stage, total_over, compute_early_delivery,
}

-- Half a millionth of an hour is the error of one value, in microseconds.
hours_between_near :
    (start end : ℕ)
    → let z = hours_between start end in
      (2 * end + 7200 * neg_part z ≤ 2 * start + 7200 * pos_part z + 3600)
      × (2 * start + 7200 * pos_part z ≤ 2 * end + 7200 * neg_part z + 3600)
unfolding hours_between
hours_between_near start end = ground (
  arith,
  round_half_even_near (end - start) 3600 (omega arith),
  round_half_even_near (start - end) 3600 (omega arith),
)

hours_between_add_up :
    (a b c d : ℕ)
    → let sum = hours_between a b +ℤ hours_between b c +ℤ hours_between c d in
      (sum ≤ℤ hours_between a d +ℤ pos 2) × (hours_between a d ≤ℤ sum +ℤ pos 2)
hours_between_add_up a b c d =
    let ab = hours_between a b in
    let bc = hours_between b c in
    let cd = hours_between c d in
    ground (
      arith,
      hours_between_near a b,
      hours_between_near b c,
      hours_between_near c d,
      hours_between_near a d,
      +ℤ_parts ab bc,
      +ℤ_parts (ab +ℤ bc) cd,
      +ℤ_parts (ab +ℤ bc +ℤ cd) (pos 2),
      +ℤ_parts (hours_between a d) (pos 2),
    )

-- The stretches between four timestamps add up: planning lead time, scheduling gap and execution
-- delay are together the lead time from submission to service, to within two millionths of an hour.
pub durations_add_up :
    (submission requested scheduled served : ℕ) (planning gap delay lead : ℤ)
    → (compute_planning_lead_time (some submission) (some requested)).status ≡ available planning
    → (compute_scheduling_gap (some requested) (some scheduled)).status ≡ available gap
    → (compute_execution_delay (some scheduled) (some served)).status ≡ available delay
    → (compute_lead_time (some submission) (some served)).status ≡ available lead
    → (planning +ℤ gap +ℤ delay ≤ℤ lead +ℤ pos 2) × (lead ≤ℤ planning +ℤ gap +ℤ delay +ℤ pos 2)
unfolding compute_planning_lead_time compute_scheduling_gap compute_execution_delay
    compute_lead_time elapsed
durations_add_up submission requested scheduled served planning gap delay lead p g d l =
    ground (arith, hours_between_add_up submission requested scheduled served)

-- A service before its scheduled time has a negative delay, flagged as early and never clipped: if the
-- two times are more than half a millionth of an hour apart, the flag says which came first.
pub execution_delay_early :
    (scheduled served : ℕ)
    → let r = compute_execution_delay (some scheduled) (some served) in
      (served + 1800 < scheduled → r.is_early_delivery ≡ true)
      × (r.is_early_delivery ≡ true → served < scheduled)
unfolding compute_execution_delay elapsed
execution_delay_early scheduled served = ground (arith, hours_between_near scheduled served)

-- What two optional sums are together.
abbrev pub both : Option ℤ → Option ℤ → Option ℤ
both none b = b
both (some a) none = some a
both (some a) (some b) = some (a +ℤ b)

-- One added duration, whatever its category.
abbrev add_hours : (TimeCategory → Bool) → Option ℤ → TimeCategory → ℤ → Option ℤ
add_hours counts total c d =
    add_stage counts total (record { time_category = c; duration_hours = some d })

add_hours-both :
    (w v : Option ℤ) (c : TimeCategory) (d : ℤ)
    → add_hours (λ x. is_waiting x || is_service x) (both w v) c d
      ≡ both (add_hours is_waiting w c d) (add_hours is_service v c d)
add_hours-both none none c d = ground arith
add_hours-both (some a) none c d = ground arith
add_hours-both none (some b) c d = ground (arith, +ℤ_comm b d)
add_hours-both (some a) (some b) c d = ground (arith, +ℤ_rotate a b d, +ℤ_assoc a b d)

add_stage-both :
    (w v : Option ℤ) (s : StageTime)
    → add_stage (λ c. is_waiting c || is_service c) (both w v) s
      ≡ both (add_stage is_waiting w s) (add_stage is_service v s)
add_stage-both w v s = elim (Option-cases s.duration_hours) [
  | inl e ↦ rw e refl
  | inr (d, e) ↦ rw e (add_hours-both w v s.time_category d)
]

-- Every stage has one category: waiting and service time never count a stage twice, and together are
-- the sum of all stages that wait or serve.
pub waiting_and_service :
    (w v : Option ℤ) (stages : List StageTime)
    → total_over (λ c. is_waiting c || is_service c) (both w v) stages
      ≡ both (total_over is_waiting w stages) (total_over is_service v stages)
unfolding total_over
waiting_and_service w v [] = refl
waiting_and_service w v (s ∷ stages) =
    rw (add_stage-both w v s)
      (waiting_and_service (add_stage is_waiting w s) (add_stage is_service v s) stages)

-- The early delivery of a service is its execution delay if that is negative, with the hours that
-- it was early, and none if it is not.
pub early_delivery-execution_delay :
    (scheduled served : ℕ) (delay : ℤ)
    → (compute_execution_delay (some scheduled) (some served)).status ≡ available delay
    → let e = compute_early_delivery (some delay) in
      (e.is_early_delivery
        ≡ (compute_execution_delay (some scheduled) (some served)).is_early_delivery)
      × (e.status ≡ available (if is_negative delay then delay else pos 0))
unfolding compute_execution_delay compute_early_delivery
early_delivery-execution_delay scheduled served delay h = ground arith
