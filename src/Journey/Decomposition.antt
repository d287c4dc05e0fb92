-- ===== src/Journey/Decomposition.antt =====
-- apps/api/services/journey/reconstructor.py: `_compute_decomposition`, on exact millionths of an hour.
-- The buckets are a dictionary, an association list in which a key is written where it stands.
pub mod Total
use marine_time_motion_platf.Prelude.{
  ℕ, ◌≤◌, Bool, true, false, ◌&&◌, List, [], ◌∷◌, map, leb, ltb, if◌then◌else◌, Option, none, some,
}
use marine_time_motion_platf.Prelude.Int.{ℤ, pos, ◌+ℤ◌, ◌-ℤ◌, leb_ℤ}
use marine_time_motion_platf.Prelude.Text.{Text, text, ◌=ᵗ◌}
use marine_time_motion_platf.Journey.Timeline.{StageOccurrence}

abbrev pub Buckets : Type 0
Buckets = List (Text × ℤ)

-- `buckets.get(category, 0.0)`
unfoldable pub bucket : Text → Buckets → ℤ
bucket c [] = pos 0
bucket c ((k, z) ∷ rest) = if k =ᵗ c then z else bucket c rest

-- `buckets[category] = value`
unfoldable pub set_bucket : Text → ℤ → Buckets → Buckets
set_bucket c v [] = (c, v) ∷ []
set_bucket c v ((k, z) ∷ rest) =
    let rest' = set_bucket c v rest in if k =ᵗ c then (k, v) ∷ rest else (k, z) ∷ rest'

-- `sum(buckets.values())`
unfoldable pub sum_buckets : Buckets → ℤ
sum_buckets [] = pos 0
sum_buckets ((k, z) ∷ rest) = z +ℤ sum_buckets rest

abbrev empty_buckets : Buckets
empty_buckets =
    (text "ACTIVE_SERVICE", pos 0)
    ∷ (text "PASSIVE_WAIT", pos 0)
    ∷ (text "HOLD", pos 0)
    ∷ (text "DELAY", pos 0)
    ∷ (text "UNCLASSIFIED", pos 0)
    ∷ []

-- An interval of the main path.
pub record Interval : Type 0 where
  pub category : Text
  pub start_time : ℕ
  pub end_time : ℕ
  pub hours : ℤ

-- The interval of a row of the main path, if it is available.
unfoldable pub interval_of : StageOccurrence → Option Interval
interval_of row = elim row.start_time [
  | none ↦ none
  | some s ↦ elim row.end_time [
    | none ↦ none
    | some e ↦ elim row.duration_hours [
      | none ↦ none
      | some h ↦
          some (record { category = row.time_category; start_time = s; end_time = e; hours = h })
    ]
  ]
]

unfoldable pub intervals_of : List StageOccurrence → List Interval
intervals_of [] = []
intervals_of (row ∷ rows) =
    let rest = intervals_of rows in elim (interval_of row) [ none ↦ rest | some i ↦ i ∷ rest ]

unfoldable pub add_intervals : List Interval → Buckets → Buckets
add_intervals [] b = b
add_intervals (i ∷ is) b =
    add_intervals is (set_bucket i.category (bucket i.category b +ℤ i.hours) b)

-- The first interval that holds the whole shift.
unfoldable pub find_overlapping_interval : List Interval → ℕ → ℕ → Option Interval
find_overlapping_interval [] start end = none
find_overlapping_interval (i ∷ is) start end =
    if leb i.start_time start && leb end i.end_time
    then some i
    else find_overlapping_interval is start end

abbrev pub min_ℤ : ℤ → ℤ → ℤ
min_ℤ a b = if leb_ℤ a b then a else b

-- One shift: what it takes from the bucket of its interval, and what it adds to the delay.
unfoldable pub carve_shift : List Interval → Interval → Buckets × ℤ → Buckets × ℤ
carve_shift intervals shift (b, delay) =
    elim (find_overlapping_interval intervals shift.start_time shift.end_time) [
      | none ↦ (b, delay +ℤ shift.hours)
      | some i ↦
          let carve = min_ℤ shift.hours (bucket i.category b) in
          (set_bucket i.category (bucket i.category b -ℤ carve) b, delay +ℤ carve)
    ]

unfoldable pub carve_shifts : List Interval → List Interval → Buckets × ℤ → Buckets × ℤ
carve_shifts intervals [] state = state
carve_shifts intervals (s ∷ shifts) state =
    carve_shifts intervals shifts (carve_shift intervals s state)

pub record Decomposition : Type 0 where
  pub buckets : Buckets
  pub total_hours : Option ℤ

abbrev pub delay_category : Text
delay_category = text "DELAY"

unfoldable pub compute_decomposition : List Interval → List StageOccurrence → Decomposition
compute_decomposition intervals shift_rows =
    let (b, delay) =
      carve_shifts intervals (intervals_of shift_rows)
        (add_intervals intervals empty_buckets, pos 0) in
    let b' = set_bucket delay_category (bucket delay_category b +ℤ delay) b in
    record {
      buckets = b';
      total_hours = elim intervals [ [] ↦ none | i ∷ is ↦ some (sum_buckets b') ];
    }
