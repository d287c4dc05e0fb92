-- ===== src/Prelude/Round.antt =====
-- Python's `round` on an exact quotient: to the nearest integer, and on a tie to the even one.
use marine_time_motion_platf.Prelude.{
  ℕ, ◌+◌, ◌*◌, ◌/◌, ◌%◌, ◌≤◌, ◌<◌, ◌≡◌, subst, ltb, ◌==◌, arith, if◌then◌else◌,
}
use native.Mathlib.Decide.{dec_lt}

unfoldable pub round_half_even : ℕ → ℕ → ℕ
round_half_even n d =
    if ltb (2 * (n % d)) d
    then n / d
    else if ltb d (2 * (n % d))
    then n / d + 1
    else if (n / d) % 2 == 0
    then n / d
    else n / d + 1

-- The result is within half a unit of the quotient.
pub round_half_even_near :
    (n d : ℕ)
    → 0 < d
    → (2 * n ≤ 2 * (d * round_half_even n d) + d) × (2 * (d * round_half_even n d) ≤ 2 * n + d)
unfolding round_half_even
round_half_even_near n d h = grind arith

product : (d k r : ℕ) → k < r → d * k + d ≤ d * r
product d k r h = grind arith

le_of_near : (d r k : ℕ) → 0 < d → 2 * (d * r) ≤ 2 * (d * k) + d → r ≤ k
le_of_near d r k h near = elim (dec_lt k r) [
  | yes more ↦ absurd (omega (arith, product d k r more))
  | no less ↦ omega arith
]

pub round_half_even-le : (n d k : ℕ) → 0 < d → n ≤ d * k → round_half_even n d ≤ k
round_half_even-le n d k h le =
    le_of_near d (round_half_even n d) k h (omega (arith, round_half_even_near n d h))

pub round_half_even_ge : (n d k : ℕ) → 0 < d → d * k ≤ n → k ≤ round_half_even n d
round_half_even_ge n d k h le =
    le_of_near d k (round_half_even n d) h (omega (arith, round_half_even_near n d h))

mono_of_near :
    (m n d r r' : ℕ) → m < n → 2 * (d * r) ≤ 2 * m + d → 2 * n ≤ 2 * (d * r') + d → r ≤ r'
mono_of_near m n d r r' less above below = elim (dec_lt r' r) [
  | no no_more ↦ omega arith
  | yes more ↦ absurd (omega (arith, product d r' r more))
]

-- A larger quotient by the same number does not round to a smaller one.
pub round_half_even_mono : (m n d : ℕ) → 0 < d → m ≤ n → round_half_even m d ≤ round_half_even n d
round_half_even_mono m n d h le = elim (dec_lt m n) [
  | yes less ↦
      mono_of_near m n d (round_half_even m d) (round_half_even n d) less
        (round_half_even_near m d h).1 (round_half_even_near n d h).0
  | no no_less ↦
      let same : m ≡ n = omega arith in
      subst (λ k. round_half_even m d ≤ round_half_even k d) same (omega arith)
]
