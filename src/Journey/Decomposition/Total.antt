-- ===== src/Journey/Decomposition/Total.antt =====
-- The components sum to the total, and the total to the hours of the stages and of the shifts that no
-- stage holds.
use marine_time_motion_platf.Prelude.{
  ◌≡◌, refl, sym, ap, ◌∙◌, ◌⊎◌, inl, inr, Bool, true, false, ◌&&◌, leb, any, if◌then◌else◌, List,
  [], ◌∷◌, none, some, Bool-cases, arith,
}
use marine_time_motion_platf.Prelude.Int.{
  ℤ, pos, ◌+ℤ◌, ◌-ℤ◌, +ℤ_parts, -ℤ_parts, eq_of_parts, +ℤ_assoc,
}
use marine_time_motion_platf.Prelude.Text.{Text, ◌=ᵗ◌}
use marine_time_motion_platf.Journey.Timeline.{StageOccurrence}
use marine_time_motion_platf.Journey.Decomposition.{
  Buckets, bucket, set_bucket, sum_buckets, empty_buckets, Interval, intervals_of, add_intervals,
  find_overlapping_interval, min_ℤ, carve_shift, carve_shifts, delay_category,
  compute_decomposition,
}

sum_buckets-set_bucket :
    (c : Text) (v : ℤ) (b : Buckets)
    → sum_buckets (set_bucket c v b) +ℤ bucket c b ≡ sum_buckets b +ℤ v
unfolding sum_buckets set_bucket bucket
sum_buckets-set_bucket c v [] =
    eq_of_parts _ _
      (ground (arith, +ℤ_parts v (pos 0), +ℤ_parts (v +ℤ pos 0) (pos 0), +ℤ_parts (pos 0) v))
sum_buckets-set_bucket c v ((k, z) ∷ rest) = elim (Bool-cases (k =ᵗ c)) [
  | inl same ↦ rw same (
      eq_of_parts _ _ (
        ground (
          arith,
          +ℤ_parts v (sum_buckets rest),
          +ℤ_parts (v +ℤ sum_buckets rest) z,
          +ℤ_parts z (sum_buckets rest),
          +ℤ_parts (z +ℤ sum_buckets rest) v,
        )))
  | inr other ↦ rw other (
      eq_of_parts _ _ (
        ground (
          arith,
          sum_buckets-set_bucket c v rest,
          +ℤ_parts (sum_buckets (set_bucket c v rest)) (bucket c rest),
          +ℤ_parts (sum_buckets rest) v,
          +ℤ_parts z (sum_buckets (set_bucket c v rest)),
          +ℤ_parts (z +ℤ sum_buckets (set_bucket c v rest)) (bucket c rest),
          +ℤ_parts z (sum_buckets rest),
          +ℤ_parts (z +ℤ sum_buckets rest) v,
        )))
]

-- Adding to a bucket adds to the sum.
sum_buckets-add :
    (c : Text) (d : ℤ) (b : Buckets)
    → sum_buckets (set_bucket c (bucket c b +ℤ d) b) ≡ sum_buckets b +ℤ d
sum_buckets-add c d b =
    let s' = sum_buckets (set_bucket c (bucket c b +ℤ d) b) in
    eq_of_parts _ _ (
      ground (
        arith,
        sum_buckets-set_bucket c (bucket c b +ℤ d) b,
        +ℤ_parts s' (bucket c b),
        +ℤ_parts (sum_buckets b) (bucket c b +ℤ d),
        +ℤ_parts (bucket c b) d,
        +ℤ_parts (sum_buckets b) d,
      ))

sum_buckets-take :
    (c : Text) (d : ℤ) (b : Buckets)
    → sum_buckets (set_bucket c (bucket c b -ℤ d) b) +ℤ d ≡ sum_buckets b
sum_buckets-take c d b =
    let s' = sum_buckets (set_bucket c (bucket c b -ℤ d) b) in
    eq_of_parts _ _ (
      ground (
        arith,
        sum_buckets-set_bucket c (bucket c b -ℤ d) b,
        +ℤ_parts s' (bucket c b),
        +ℤ_parts (sum_buckets b) (bucket c b -ℤ d),
        -ℤ_parts (bucket c b) d,
        +ℤ_parts s' d,
      ))

-- The hours of the main path.
pub sum_hours : List Interval → ℤ
sum_hours [] = pos 0
sum_hours (i ∷ is) = i.hours +ℤ sum_hours is

-- Whether an interval holds the whole of a shift, from its start to its end.
abbrev pub holds : Interval → Interval → Bool
holds s i = leb i.start_time s.start_time && leb s.end_time i.end_time

-- The hours of a shift if no single interval of the main path holds the whole of it, and their sum.
abbrev pub uncontained_part : List Interval → Interval → ℤ
uncontained_part intervals s = if any (holds s) intervals then pos 0 else s.hours

pub uncontained_hours : List Interval → List Interval → ℤ
uncontained_hours intervals [] = pos 0
uncontained_hours intervals (s ∷ shifts) =
    uncontained_part intervals s +ℤ uncontained_hours intervals shifts

-- The interval that is found is one that holds the shift.
find_overlapping_interval-holds :
    (is : List Interval) (s : Interval)
    → (any (holds s) is ≡ true
        × ((i : Interval) × (find_overlapping_interval is s.start_time s.end_time ≡ some i)))
      ⊎ ((any (holds s) is ≡ false) × (find_overlapping_interval is s.start_time s.end_time ≡ none))
unfolding find_overlapping_interval
find_overlapping_interval-holds [] s = inr (refl, refl)
find_overlapping_interval-holds (i ∷ is) s = elim (Bool-cases (holds s i)) [
  | inl held_by ↦ inl (ground arith, (i, ground arith))
  | inr other ↦ elim (find_overlapping_interval-holds is s) [
    | inl (some_other, (j, found)) ↦ inl (ground arith, (j, ground arith))
    | inr (never, unfound) ↦ inr (ground arith, ground arith)
  ]
]

add_intervals-sum :
    (is : List Interval) (b : Buckets)
    → sum_buckets (add_intervals is b) ≡ sum_buckets b +ℤ sum_hours is
unfolding add_intervals sum_hours
add_intervals-sum [] b = eq_of_parts _ _ (ground (arith, +ℤ_parts (sum_buckets b) (pos 0)))
add_intervals-sum (i ∷ is) b =
    let b' = set_bucket i.category (bucket i.category b +ℤ i.hours) b in
    eq_of_parts _ _ (
      ground (
        arith,
        add_intervals-sum is b',
        sum_buckets-add i.category i.hours b,
        +ℤ_parts (sum_buckets b') (sum_hours is),
        +ℤ_parts (sum_buckets b) i.hours,
        +ℤ_parts i.hours (sum_hours is),
        +ℤ_parts (sum_buckets b) (i.hours +ℤ sum_hours is),
      ))

-- What is in the buckets or taken as delay.
abbrev held : Buckets × ℤ → ℤ
held (b, delay) = sum_buckets b +ℤ delay

add_zero : (z : ℤ) → z ≡ z +ℤ pos 0
add_zero z = eq_of_parts _ _ (ground (arith, +ℤ_parts z (pos 0)))

moved_held :
    (c : Text) (d : ℤ) (b : Buckets) (delay : ℤ)
    → held (set_bucket c (bucket c b -ℤ d) b, delay +ℤ d) ≡ held (b, delay)
moved_held c d b delay =
    let s' = sum_buckets (set_bucket c (bucket c b -ℤ d) b) in
    eq_of_parts _ _ (
      ground (
        arith,
        sum_buckets-take c d b,
        +ℤ_parts s' d,
        +ℤ_parts delay d,
        +ℤ_parts s' (delay +ℤ d),
        +ℤ_parts (sum_buckets b) delay,
      ))

carve_shift-outside :
    (is : List Interval) (s : Interval) (b : Buckets) (delay : ℤ)
    → find_overlapping_interval is s.start_time s.end_time ≡ none
    → carve_shift is s (b, delay) ≡ (b, delay +ℤ s.hours)
unfolding carve_shift
carve_shift-outside is s b delay e = ground arith

carve_shift-inside :
    (is : List Interval) (s i : Interval) (b : Buckets) (delay : ℤ)
    → find_overlapping_interval is s.start_time s.end_time ≡ some i
    → carve_shift is s (b, delay) ≡ (
      set_bucket i.category (bucket i.category b -ℤ min_ℤ s.hours (bucket i.category b)) b,
      delay +ℤ min_ℤ s.hours (bucket i.category b),
    )
unfolding carve_shift
carve_shift-inside is s i b delay e =
    ap
      (λ o. elim o [
        | none ↦ (b, delay +ℤ s.hours)
        | some j ↦ (
          set_bucket j.category (bucket j.category b -ℤ min_ℤ s.hours (bucket j.category b)) b,
          delay +ℤ min_ℤ s.hours (bucket j.category b),
        )
      ])
      e

carve_shift-held :
    (is : List Interval) (s : Interval) (b : Buckets) (delay : ℤ)
    → held (carve_shift is s (b, delay)) ≡ held (b, delay) +ℤ uncontained_part is s
carve_shift-held is s b delay = elim (find_overlapping_interval-holds is s) [
  | inr (never, outside) ↦
      ap held (carve_shift-outside is s b delay outside)
      ∙ rw never (sym (+ℤ_assoc (sum_buckets b) delay s.hours))
  | inl (in_one, (i, inside)) ↦
      ap held (carve_shift-inside is s i b delay inside)
      ∙ moved_held i.category (min_ℤ s.hours (bucket i.category b)) b delay
      ∙ rw in_one (add_zero (held (b, delay)))
]

carve_shifts-held :
    (is shifts : List Interval) (b : Buckets) (delay : ℤ)
    → held (carve_shifts is shifts (b, delay)) ≡ held (b, delay) +ℤ uncontained_hours is shifts
unfolding carve_shifts uncontained_hours
carve_shifts-held is [] b delay = add_zero (held (b, delay))
carve_shifts-held is (s ∷ shifts) b delay =
    let state = carve_shift is s (b, delay) in
    carve_shifts-held is shifts state.0 state.1
    ∙ ap (λ z. z +ℤ uncontained_hours is shifts) (carve_shift-held is s b delay)
    ∙ +ℤ_assoc (held (b, delay)) (uncontained_part is s) (uncontained_hours is shifts)

empty_buckets-sum : sum_buckets empty_buckets ≡ pos 0
unfolding sum_buckets ◌+ℤ◌
empty_buckets-sum = refl

start_at_zero : (z : ℤ) → (sum_buckets empty_buckets +ℤ z) +ℤ pos 0 ≡ z
start_at_zero z =
    eq_of_parts _ _
      (rw empty_buckets-sum (ground (arith, +ℤ_parts (pos 0) z, +ℤ_parts (pos 0 +ℤ z) (pos 0))))

-- Where a stage of the main path is available, the reported total is the sum of all reported
-- components, and it is the hours of the main path plus the full hours of each shift that no single
-- stage of it wholly contains. So a shift within a stage is moved to the delay and counted once, and the
-- part that a shift shares with a stage which does not contain it is counted twice.
pub compute_decomposition_total :
    (i : Interval) (is : List Interval) (shift_rows : List StageOccurrence)
    → let d = compute_decomposition (i ∷ is) shift_rows in
      (d.total_hours ≡ some (sum_buckets d.buckets))
      × (sum_buckets d.buckets
          ≡ sum_hours (i ∷ is) +ℤ uncontained_hours (i ∷ is) (intervals_of shift_rows))
unfolding compute_decomposition
compute_decomposition_total i is shift_rows =
    let shifts = intervals_of shift_rows in
    let b0 = add_intervals (i ∷ is) empty_buckets in
    let after = carve_shifts (i ∷ is) shifts (b0, pos 0) in
    (
      refl,
      sum_buckets-add delay_category after.1 after.0
          ∙ carve_shifts-held (i ∷ is) shifts b0 (pos 0)
          ∙ ap (λ z. (z +ℤ pos 0) +ℤ uncontained_hours (i ∷ is) shifts)
              (add_intervals-sum (i ∷ is) empty_buckets)
          ∙ ap (λ z. z +ℤ uncontained_hours (i ∷ is) shifts) (start_at_zero (sum_hours (i ∷ is))),
    )
