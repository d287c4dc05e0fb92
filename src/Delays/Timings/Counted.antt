-- ===== src/Delays/Timings/Counted.antt =====
-- Which services of a leg are counted as eligible and as late.
use marine_time_motion_platf.Prelude.{
  ℕ, zero, suc, ◌≡◌, ◌≢◌, refl, ◌⊎◌, inl, inr, true, List, [], ◌∷◌, filter, length, none, some,
  Bool-cases, Option-cases, ap, false, arith,
}
use marine_time_motion_platf.Prelude.Int.{ℤ, pos, negsuc}
use marine_time_motion_platf.Delays.Timings.{
  Leg, same_leg, arrival_inward, sailing_outward, shifting, unclassified, Timing, is_eligible,
  is_delayed,
}

-- Not a service of the leg with a known delay.
abbrev pub IsIneligible : Leg → Timing → Type 0
IsIneligible leg t = (t.leg ≢ leg) ⊎ (t.execution_delay_hours ≡ none)

-- A service of the leg that was served later than scheduled.
abbrev pub IsLate : Leg → Timing → Type 0
IsLate leg t = (t.leg ≡ leg) × ((k : ℕ) × (t.execution_delay_hours ≡ some (pos (suc k))))

-- A service of the leg that was served early or on time.
abbrev pub IsPunctual : Leg → Timing → Type 0
IsPunctual leg t =
    (t.leg ≡ leg)
    × ((t.execution_delay_hours ≡ some (pos 0))
        ⊎ ((k : ℕ) × (t.execution_delay_hours ≡ some (negsuc k))))

-- How many services of a leg there are with a known delay, and how many of those were late.
pub data HasCounts (leg : Leg) : List Timing → ℕ → ℕ → Type 0 where
  nothing : HasCounts leg [] 0 0
  skipped :
      (t : Timing) (rows : List Timing) (n d : ℕ)
      → IsIneligible leg t
      → HasCounts leg rows n d
      → HasCounts leg (t ∷ rows) n d
  late_one :
      (t : Timing) (rows : List Timing) (n d : ℕ)
      → IsLate leg t
      → HasCounts leg rows n d
      → HasCounts leg (t ∷ rows) (suc n) (suc d)
  punctual_one :
      (t : Timing) (rows : List Timing) (n d : ℕ)
      → IsPunctual leg t
      → HasCounts leg rows n d
      → HasCounts leg (t ∷ rows) (suc n) d

same_leg_lem : (a b : Leg) → (same_leg a b ≡ true) → a ≡ b
unfolding same_leg
same_leg_lem arrival_inward arrival_inward h = refl
same_leg_lem arrival_inward sailing_outward h = absurd (ground arith)
same_leg_lem arrival_inward shifting h = absurd (ground arith)
same_leg_lem arrival_inward unclassified h = absurd (ground arith)
same_leg_lem sailing_outward arrival_inward h = absurd (ground arith)
same_leg_lem sailing_outward sailing_outward h = refl
same_leg_lem sailing_outward shifting h = absurd (ground arith)
same_leg_lem sailing_outward unclassified h = absurd (ground arith)
same_leg_lem shifting arrival_inward h = absurd (ground arith)
same_leg_lem shifting sailing_outward h = absurd (ground arith)
same_leg_lem shifting shifting h = refl
same_leg_lem shifting unclassified h = absurd (ground arith)
same_leg_lem unclassified arrival_inward h = absurd (ground arith)
same_leg_lem unclassified sailing_outward h = absurd (ground arith)
same_leg_lem unclassified shifting h = absurd (ground arith)
same_leg_lem unclassified unclassified h = refl

same_leg_refl : (a : Leg) → same_leg a a ≡ true
unfolding same_leg
same_leg_refl arrival_inward = refl
same_leg_refl sailing_outward = refl
same_leg_refl shifting = refl
same_leg_refl unclassified = refl

ℤ-cases : (z : ℤ) → (z ≡ pos 0) ⊎ (((k : ℕ) × (z ≡ pos (suc k))) ⊎ ((k : ℕ) × (z ≡ negsuc k)))
ℤ-cases (pos zero) = inl refl
ℤ-cases (pos (suc k)) = inr (inl (k, refl))
ℤ-cases (negsuc k) = inr (inr (k, refl))

-- Where a service stands by its leg and its delay, with what the tests say of it.
delayed_cases :
    (leg : Leg) (t : Timing)
    → (IsIneligible leg t × (is_eligible leg t ≡ false))
      ⊎ ((IsLate leg t × (is_eligible leg t ≡ true) × (is_delayed t ≡ true))
          ⊎ (IsPunctual leg t × (is_eligible leg t ≡ true) × (is_delayed t ≡ false)))
delayed_cases leg t = elim (Bool-cases (same_leg t.leg leg)) [
  | inr other ↦ inl (
    inl (λ same. absurd (ground (arith, same_leg_refl leg, ap (λ l. same_leg l leg) same))),
    ground arith,
  )
  | inl same ↦
      let is = same_leg_lem t.leg leg same in
      elim (Option-cases t.execution_delay_hours) [
        | inl unknown ↦ inl (inr unknown, ground arith)
        | inr (z, known) ↦ elim (ℤ-cases z) [
          | inl zero_hours ↦ inr (inr ((is, inl (ground arith)), ground arith, ground arith))
          | inr (inl (k, more)) ↦ inr (inl ((is, (k, ground arith)), ground arith, ground arith))
          | inr (inr (k, less)) ↦
              inr (inr ((is, inr (k, ground arith)), ground arith, ground arith))
        ]
      ]
]

pub filter-HasCounts :
    (leg : Leg) (rows : List Timing)
    → HasCounts leg rows
        (length (filter (is_eligible leg) rows))
        (length (filter is_delayed (filter (is_eligible leg) rows)))
filter-HasCounts leg [] = nothing
filter-HasCounts leg (t ∷ rows) =
    let rest = filter-HasCounts leg rows in
    elim (delayed_cases leg t) [
      | inl (is, unfit) ↦ rw unfit (skipped t rows _ _ is rest)
      | inr (inl (is, fit, behind)) ↦ rw fit (rw behind (late_one t rows _ _ is rest))
      | inr (inr (is, fit, punctual)) ↦ rw fit (rw punctual (punctual_one t rows _ _ is rest))
    ]
