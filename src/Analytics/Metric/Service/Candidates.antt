-- ===== src/Analytics/Metric/Service/Candidates.antt =====
-- The services that name a movement, and the one that is inferred where none does.
use marine_time_motion_platf.Prelude.{
  ℕ, ◌≡◌, ◌≢◌, ◌≤◌, ◌<◌, length, refl, subst, ◌⊎◌, inl, inr, true, false, List, [], ◌∷◌, Option,
  none, some, Bool-cases, Option-cases, arith,
}
use marine_time_motion_platf.Prelude.Members.{In}
use marine_time_motion_platf.Prelude.Text.{Text, text, ◌=ᵗ◌, =ᵗ_iff, non_empty_iff, lower}
use marine_time_motion_platf.Analytics.Metric.Service.{
  Service, scheduled_before, precedes, is_for, last_of, inferred,
}
use marine_time_motion_platf.Analytics.Metric.Service.Ordered.{IsOrdered, first_of, last_of-last}

-- Scheduled before another service, or at all where that one is not.
abbrev pub IsBefore : Service → Service → Type 0
IsBefore a b =
    (x : ℕ) × ((a.assignment).scheduled_time ≡ some x)
    × (((b.assignment).scheduled_time ≡ none)
        ⊎ ((y : ℕ) × ((b.assignment).scheduled_time ≡ some y) × (x < y)))

-- A service whose movement is the target, in any case.
abbrev pub Names : Text → Service → Type 0
Names target s =
    (m : Text) × ((s.request).movement_type ≡ some m) × (m ≢ []) × (lower m ≡ lower target)

times_before :
    (a b : Option ℕ)
    → scheduled_before a b ≡ false
    → ¬ ((x : ℕ) × (a ≡ some x) × ((b ≡ none) ⊎ ((y : ℕ) × (b ≡ some y) × (x < y))))
times_before none b h (x, unset, rest) = absurd (ground arith)
times_before (some a) none h rest = absurd (ground arith)
times_before (some a) (some b) h (x, is, inl unset) = absurd (ground arith)
times_before (some a) (some b) h (x, is, inr (y, is', less)) = absurd (ground arith)

pub precedes-false : (a b : Service) → precedes a b ≡ false → ¬ IsBefore a b
precedes-false a b h = times_before (a.assignment).scheduled_time (b.assignment).scheduled_time h

pub is_for-Names : (target : Text) (s : Service) → is_for target s ≡ true → Names target s
is_for-Names target s h = elim (Option-cases (s.request).movement_type) [
  | inl unnamed ↦ absurd (ground arith)
  | inr (m, named) ↦ (
    m,
    named,
    (non_empty_iff m).0 (ground arith),
    (=ᵗ_iff (lower m) (lower target)).0 (ground arith),
  )
]

pub is_for_other : (target : Text) (s : Service) → is_for target s ≡ false → ¬ Names target s
is_for_other target s h (m, named, given, same) =
    let left = (non_empty_iff m).1 given in
    let right = (=ᵗ_iff (lower m) (lower target)).1 same in absurd (ground arith)

pub Names-is_for : (target : Text) (s : Service) → Names target s → is_for target s ≡ true
Names-is_for target s it = elim (Bool-cases (is_for target s)) [
  | inl named ↦ named
  | inr other ↦ absurd (is_for_other target s other it)
]

-- Where no service names the movement: the earliest for an arrival, and for a sailing the latest of at
-- least two.
abbrev pub IsInferred : Text → List Service → Service → Type 0
IsInferred target ss s =
    In s ss
    × (((lower target ≡ text "arrival") × ((t : Service) → In t ss → ¬ IsBefore t s))
        ⊎ ((lower target ≡ text "sailing")
            × (2 ≤ length ss)
            × ((t : Service) → In t ss → ¬ IsBefore s t)))

-- No service can be inferred either: there is none, or the movement is another one, or it is a sailing
-- and there is only one service.
abbrev pub IsUninferable : Text → List Service → Type 0
IsUninferable target ss =
    (ss ≡ [])
    ⊎ ((lower target ≢ text "arrival") × ((lower target ≢ text "sailing") ⊎ (length ss ≤ 1)))

same_words : (a b : Text) → (a =ᵗ b) ≡ false → a ≢ b
same_words a b h same = absurd (ground (arith, (=ᵗ_iff a b).1 same))

pub inferred-IsUninferable :
    (target : Text) (ss : List Service) → inferred target ss ≡ none → IsUninferable target ss
unfolding inferred
inferred-IsUninferable target [] h = inl refl
inferred-IsUninferable target (x ∷ []) h = elim (Bool-cases (lower target =ᵗ text "arrival")) [
  | inl arrival ↦ absurd (ground arith)
  | inr other ↦ inr (same_words _ _ other, inr (omega arith))
]
inferred-IsUninferable target (x ∷ y ∷ ss) h = elim (Bool-cases (lower target =ᵗ text "arrival")) [
  | inl arrival ↦ absurd (ground arith)
  | inr other ↦ elim (Bool-cases (lower target =ᵗ text "sailing")) [
    | inl sailing ↦ absurd (ground arith)
    | inr neither ↦ inr (same_words _ _ other, inl (same_words _ _ neither))
  ]
]

pub inferred-IsInferred :
    (target : Text) (ss : List Service) (s : Service)
    → IsOrdered ss
    → inferred target ss ≡ some s
    → IsInferred target ss s
unfolding inferred last_of
inferred-IsInferred target [] s h found = absurd (ground arith)
inferred-IsInferred target (x ∷ []) s (least, h) found =
    elim (Bool-cases (lower target =ᵗ text "arrival")) [
      | inr other ↦ absurd (ground arith)
      | inl arrival ↦
          let is : x ≡ s = ground arith in
          let (i, first) = first_of x [] least in
          subst (IsInferred target (x ∷ [])) is
            (i, inl ((=ᵗ_iff _ _).0 arrival, λ t k. precedes-false t x (first t k)))
    ]
inferred-IsInferred target (x ∷ y ∷ ss) s (least, h) found =
    elim (Bool-cases (lower target =ᵗ text "arrival")) [
      | inl arrival ↦
          let is : x ≡ s = ground arith in
          let (i, first) = first_of x (y ∷ ss) least in
          subst (IsInferred target (x ∷ y ∷ ss)) is
            (i, inl ((=ᵗ_iff _ _).0 arrival, λ t k. precedes-false t x (first t k)))
      | inr other ↦ elim (Bool-cases (lower target =ᵗ text "sailing")) [
        | inr neither ↦ absurd (ground arith)
        | inl sailing ↦
            let is : last_of y ss ≡ s = ground arith in
            let (i, last) = last_of-last x (y ∷ ss) (least, h) in
            subst (IsInferred target (x ∷ y ∷ ss)) is (
              i,
              inr (
                (=ᵗ_iff _ _).0 sailing,
                omega arith,
                λ t k. precedes-false (last_of y ss) t (last t k),
              ),
            )
      ]
    ]
