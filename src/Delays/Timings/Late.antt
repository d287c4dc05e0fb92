-- ===== src/Delays/Timings/Late.antt =====
-- What it means that services are late.
use marine_time_motion_platf.Prelude.{
  ℕ, ◌+◌, ◌-◌, ◌*◌, ◌≤◌, ◌<◌, ◌≡◌, ◌↔◌, refl, ◌⊎◌, inl, inr, true, ◌&&◌, not, List, [], ◌∷◌, filter,
  length, length-filter-le, ltb, leb, ltb→lt, Option, none, some, Bool-cases, arith,
}
use native.Mathlib.Decide.{dec_lt}
use marine_time_motion_platf.Prelude.Int.{ℤ, pos, negsuc, ltb_ℤ}
use marine_time_motion_platf.Prelude.Round.{
  round_half_even, round_half_even_near, round_half_even-le,
}
use marine_time_motion_platf.Analytics.Duration.{elapsed, hours_between, compute_execution_delay}
use marine_time_motion_platf.Delays.Timings.{
  Leg, Request, DelayStatus, not_available, early, on_time, late, Timing, status_of, timing_of,
  Band, acceptable, watch, critical, classify_delay_frequency, is_eligible, is_delayed, Frequency,
  hours_of, frequency_of, values_of, count_values, summarize_values, Counts,
}
use marine_time_motion_platf.Delays.Timings.Counted.{HasCounts, filter-HasCounts}

-- How a status stands to the times, in microseconds; 1800 are half a millionth of an hour.
abbrev pub Timely : Option ℕ → Option ℕ → DelayStatus → Type 0
Timely scheduled served not_available = (scheduled ≡ none) ⊎ (served ≡ none)
Timely scheduled served early =
    (a : ℕ) × (b : ℕ) × (scheduled ≡ some a) × (served ≡ some b) × (b + 1800 < a)
Timely scheduled served late =
    (a : ℕ) × (b : ℕ) × (scheduled ≡ some a) × (served ≡ some b) × (a + 1800 < b)
Timely scheduled served on_time =
    (a : ℕ) × (b : ℕ) × (scheduled ≡ some a) × (served ≡ some b) × (a ≤ b + 1800) × (b ≤ a + 1800)

rounds_to_zero : (n : ℕ) → (round_half_even n 3600 ≡ 0) ↔ (n ≤ 1800)
unfolding round_half_even
rounds_to_zero n = ground arith

is_late : (a b : ℕ) → a + 1800 < b → status_of (some (hours_between a b)) ≡ late
unfolding status_of hours_between
is_late a b h = ground (arith, rounds_to_zero (b - a))

is_early : (a b : ℕ) → b + 1800 < a → status_of (some (hours_between a b)) ≡ early
unfolding status_of hours_between
is_early a b h = ground (arith, rounds_to_zero (a - b))

is_on_time :
    (a b : ℕ) → a ≤ b + 1800 → b ≤ a + 1800 → status_of (some (hours_between a b)) ≡ on_time
unfolding status_of hours_between
is_on_time a b h k = ground (arith, rounds_to_zero (b - a), rounds_to_zero (a - b))

status_of-Timely : (a b : ℕ) → Timely (some a) (some b) (status_of (some (hours_between a b)))
status_of-Timely a b = elim (dec_lt (a + 1800) b) [
  | yes more ↦ rw (is_late a b more) (a, b, refl, refl, more)
  | no less ↦ elim (dec_lt (b + 1800) a) [
    | yes before ↦ rw (is_early a b before) (a, b, refl, refl, before)
    | no after ↦
        rw (is_on_time a b (omega arith) (omega arith)) (a, b, refl, refl, omega arith, omega arith)
  ]
]

timing_status :
    (scheduled served : Option ℕ)
    → Timely scheduled served
        (status_of (hours_of (compute_execution_delay scheduled served).status))
unfolding compute_execution_delay elapsed status_of
timing_status none served = inl refl
timing_status (some a) none = inr refl
timing_status (some a) (some b) = status_of-Timely a b

-- A service counts as late, early or on time exactly as its two times say, where a difference of at
-- most half a millionth of an hour is on time, and its status is missing exactly if a time is.
pub timing_of-Timely :
    (r : Request) → Timely r.scheduled_time r.served_time (timing_of r).execution_delay_status
unfolding timing_of
timing_of-Timely r = timing_status r.scheduled_time r.served_time

mul_mono : (a b c : ℕ) → b ≤ c → a * b ≤ a * c
mul_mono a b c h = grind arith

mul_comm_1000 : (n : ℕ) → 1000 * n ≡ n * 1000
mul_comm_1000 n = omega arith

-- What a band says of the counts.
abbrev pub Banded : ℕ → ℕ → Band → Type 0
Banded delayed eligible acceptable = 1000 * delayed < 400 * eligible
Banded delayed eligible watch =
    (399 * eligible < 1000 * delayed) × (1000 * delayed < 601 * eligible)
Banded delayed eligible critical = 600 * eligible < 1000 * delayed

classified :
    (delayed eligible p : ℕ)
    → 0 < eligible
    → (2 * (1000 * delayed) ≤ 2 * (eligible * p) + eligible)
      × (2 * (eligible * p) ≤ 2 * (1000 * delayed) + eligible)
    → Banded delayed eligible (classify_delay_frequency p)
unfolding classify_delay_frequency
classified delayed eligible p h near = elim (Bool-cases (ltb p 400)) [
  | inl low ↦
      rw low
        (omega (arith, ltb→lt p 400 low, mul_mono eligible p 399 (omega (arith, ltb→lt p 400 low))))
  | inr not_low ↦ elim (Bool-cases (leb p 600)) [
    | inl mid ↦
        let least : 400 ≤ p = ground arith in
        let most : p ≤ 600 = ground arith in
        rw not_low (
          rw mid (
            omega (arith, mul_mono eligible 400 p least, mul_mono eligible p 600 most),
            omega (arith, mul_mono eligible 400 p least, mul_mono eligible p 600 most),
          ))
    | inr high ↦
        let least : 601 ≤ p = ground arith in
        rw not_low (rw high (omega (arith, mul_mono eligible 601 p least)))
  ]
]

pub record IsGoverned (leg : Leg) (rows : List Timing) (f : Frequency) : Type 0 where
  pub of_leg : f.leg ≡ leg
  pub counted : HasCounts leg rows f.eligible_event_count f.delayed_event_count
  pub within : f.delayed_event_count ≤ f.eligible_event_count
  pub missing : f.eligible_event_count ≡ 0 → f.delay_frequency ≡ none
  pub rated :
      0 < f.eligible_event_count
      → (p : ℕ) × (band : Band) × (f.delay_frequency ≡ some (p, band))
        × (p ≤ 1000)
        × Banded f.delayed_event_count f.eligible_event_count band

-- For each leg the eligible services are those of the leg with a known delay, and the late ones are
-- those of them with a delay above zero: all are counted, and no others. There is a percentage exactly if one is
-- eligible, and it is at most 100. The band is sound: critical only with more than 60 percent late,
-- acceptable only with less than 40, and watch only from 39.9 to 60.1.
pub frequency_of-IsGoverned :
    (rows : List Timing) (leg : Leg) → IsGoverned leg rows (frequency_of rows leg)
unfolding frequency_of
frequency_of-IsGoverned rows leg =
    let eligible = filter (is_eligible leg) rows in
    let n = length eligible in
    let d = length (filter is_delayed eligible) in
    let few : d ≤ n = length-filter-le is_delayed eligible in
    record {
      of_leg = refl;
      counted = filter-HasCounts leg rows;
      within = few;
      missing = λ h. ground arith;
      rated = λ h. (
        round_half_even (1000 * d) n,
        classify_delay_frequency (round_half_even (1000 * d) n),
        ground arith,
        round_half_even-le (1000 * d) n 1000 h
            (omega (arith, mul_mono 1000 d n few, mul_comm_1000 n)),
        classified d n (round_half_even (1000 * d) n) h (round_half_even_near (1000 * d) n h),
      );
    }

counts_add_up :
    (values : List ℤ)
    → count_values (λ z. ltb_ℤ (pos 0) z) values
        + count_values (λ z. not (ltb_ℤ (pos 0) z) && not (ltb_ℤ z (pos 0))) values
        + count_values (λ z. ltb_ℤ z (pos 0)) values
      ≡ length values
unfolding count_values
counts_add_up [] = refl
counts_add_up (pos n ∷ values) = ground (arith, counts_add_up values)
counts_add_up (negsuc n ∷ values) = ground (arith, counts_add_up values)

-- In each summary of services that counts them, those that were late, on time and early are together
-- the observations, and there is an average exactly if there is an observation.
pub summarize_values-counts :
    (field : Timing → Option ℤ) (rows : List Timing)
    → let s = summarize_values field true rows in
      ((c : Counts) × (s.counts ≡ some c)
        × (c.delayed_count + c.on_time_count + c.early_count ≡ s.observation_count))
      × ((s.average_hours ≡ none) ↔ (s.observation_count ≡ 0))
unfolding summarize_values
summarize_values-counts field rows = ((_, refl, counts_add_up (values_of field rows)), ground arith)
