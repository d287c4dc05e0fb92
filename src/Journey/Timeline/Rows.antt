-- ===== src/Journey/Timeline/Rows.antt =====
-- What the rows of a journey say.
use marine_time_motion_platf.Prelude.{
  ℕ, suc, ◌≡◌, refl, sym, subst, ◌⊎◌, inl, inr, ◌↔◌, true, false, List, [], ◌∷◌, length, All, none,
  some, Option-cases, Bool-cases, arith,
}
use Prim.Native.Nat.{max}
use marine_time_motion_platf.Prelude.Int.{ℤ, pos, negsuc}
use marine_time_motion_platf.Prelude.Text.{Text}
use marine_time_motion_platf.Analytics.Duration.{hours_between, is_negative}
use marine_time_motion_platf.Journey.Occurrence.{EventOccurrence}
use marine_time_motion_platf.Journey.Timeline.{
  StageDef, missing, available, deviated, MissingReason, no_observation, StageOccurrence, lookup,
  available_row, missing_row, mark_deviation, build_stage_occurrence, pair_shifts,
}

-- A row that holds together: it is either missing, with a reason and no duration, or available, with
-- the duration between its two times; it is never inferred, and has a violation exactly if deviated.
abbrev pub IsCoherent : StageOccurrence → Type 0
IsCoherent r =
    (r.is_inferred ≡ false)
    × (((r.is_available ≡ false)
          × (r.is_missing ≡ true)
          × (r.status ≡ missing)
          × (r.duration_hours ≡ none)
          × (r.sequence_violation ≡ none))
        ⊎ ((s : ℕ) × (e : ℕ) × (r.is_available ≡ true)
            × (r.is_missing ≡ false)
            × (r.start_time ≡ some s)
            × (r.end_time ≡ some e)
            × (r.duration_hours ≡ some (hours_between s e))))

-- A row of the main path: coherent, and with its violation explained.
abbrev pub IsStage : StageOccurrence → Type 0
IsStage r =
    IsCoherent r
    × ((h : ℤ)
        → (r.sequence_violation ≡ some h) ↔ ((r.duration_hours ≡ some h) × (is_negative h ≡ true)))

missing_row-IsStage :
    (instance_id : ℕ) (d : StageDef) (i : ℕ) (reason : MissingReason)
    → IsStage (missing_row instance_id d i reason)
missing_row-IsStage instance_id d i reason =
    ((refl, inl (refl, refl, refl, refl, refl)), λ h. (λ e. ground arith, λ e. ground arith))

mark_deviation-IsStage :
    (instance_id : ℕ) (d : StageDef) (i : ℕ) (s e : EventOccurrence)
    → IsStage
        (mark_deviation (hours_between s.utc_value e.utc_value) (available_row instance_id d i s e))
unfolding mark_deviation available_row
mark_deviation-IsStage instance_id d i s e =
    elim (Bool-cases (is_negative (hours_between s.utc_value e.utc_value))) [
      | inl early ↦
          rw early (
            (refl, inr (s.utc_value, e.utc_value, refl, refl, refl, refl, refl)),
            λ h. ground arith,
          )
      | inr late ↦
          rw late (
            (refl, inr (s.utc_value, e.utc_value, refl, refl, refl, refl, refl)),
            λ h. ground arith,
          )
    ]

build_stage_occurrence-cases :
    (instance_id : ℕ) (instants : List (Text × EventOccurrence)) (d : StageDef)
    → ((reason : MissingReason) × ((lookup d.start_event instants ≡ none)
          ⊎ (lookup d.end_event instants ≡ none))
        × (build_stage_occurrence instance_id instants d ≡ missing_row instance_id d 0 reason))
      ⊎ ((s : EventOccurrence) × (e : EventOccurrence) × (lookup d.start_event instants ≡ some s)
          × (lookup d.end_event instants ≡ some e)
          × (build_stage_occurrence instance_id instants d
              ≡ mark_deviation
                  (hours_between s.utc_value e.utc_value)
                  (available_row instance_id d 0 s e)))
unfolding build_stage_occurrence
build_stage_occurrence-cases instance_id instants d =
    elim (Option-cases (lookup d.start_event instants)) [
      | inl no_start ↦
          inl
            (no_observation d.start_event, inl no_start, rw (no_start, build_stage_occurrence) refl)
      | inr (s, start) ↦ elim (Option-cases (lookup d.end_event instants)) [
        | inl no_end ↦ inl (
          no_observation d.end_event,
          inr no_end,
          rw (start, no_end, build_stage_occurrence) refl,
        )
        | inr (e, end) ↦ inr (s, e, start, end, rw (start, end, build_stage_occurrence) refl)
      ]
    ]

-- A row of the main path is coherent, and so is its violation.
pub build_stage_occurrence_coherent :
    (instance_id : ℕ) (instants : List (Text × EventOccurrence)) (d : StageDef)
    → IsStage (build_stage_occurrence instance_id instants d)
build_stage_occurrence_coherent instance_id instants d =
    elim (build_stage_occurrence-cases instance_id instants d) [
      | inl (reason, gone, e) ↦ rw e (missing_row-IsStage instance_id d 0 reason)
      | inr (s, t, start, end, e) ↦ rw e (mark_deviation-IsStage instance_id d 0 s t)
    ]

-- The row of a stage of which the start or the end is not observed.
abbrev pub IsUnobserved : List (Text × EventOccurrence) → StageDef → StageOccurrence → Type 0
IsUnobserved instants d r =
    ((lookup d.start_event instants ≡ none) ⊎ (lookup d.end_event instants ≡ none))
    × (r.is_available ≡ false)
    × (r.is_missing ≡ true)
    × (r.status ≡ missing)
    × (r.start_event_occurrence_id ≡ none)
    × (r.end_event_occurrence_id ≡ none)
    × (r.start_time ≡ none)
    × (r.end_time ≡ none)
    × (r.duration_hours ≡ none)
    × (r.sequence_violation ≡ none)

-- The violation of a stage by its duration.
abbrev pub IsMarked : ℤ → StageOccurrence → Type 0
IsMarked hours r =
    (((k : ℕ) × (hours ≡ negsuc k)) × (r.status ≡ deviated) × (r.sequence_violation ≡ some hours))
    ⊎ (((n : ℕ) × (hours ≡ pos n)) × (r.status ≡ available) × (r.sequence_violation ≡ none))

sign_cases :
    (z : ℤ)
    → (((k : ℕ) × (z ≡ negsuc k)) × (is_negative z ≡ true))
      ⊎ (((n : ℕ) × (z ≡ pos n)) × (is_negative z ≡ false))
sign_cases (pos n) = inr ((n, refl), ground arith)
sign_cases (negsuc k) = inl ((k, refl), ground arith)

-- The row of a stage whose start and end are observed.
abbrev pub IsObserved : List (Text × EventOccurrence) → StageDef → StageOccurrence → Type 0
IsObserved instants d r =
    (s e : EventOccurrence) × (lookup d.start_event instants ≡ some s)
    × (lookup d.end_event instants ≡ some e)
    × (r.is_available ≡ true)
    × (r.is_missing ≡ false)
    × (r.start_event_occurrence_id ≡ some s.id)
    × (r.end_event_occurrence_id ≡ some e.id)
    × (r.start_time ≡ some s.utc_value)
    × (r.end_time ≡ some e.utc_value)
    × (r.duration_hours ≡ some (hours_between s.utc_value e.utc_value))
    × IsMarked (hours_between s.utc_value e.utc_value) r

-- The row of a stage by what is observed of it.
abbrev pub IsRowOf : ℕ → List (Text × EventOccurrence) → StageDef → StageOccurrence → Type 0
IsRowOf instance_id instants d r =
    (r.journey_instance_id ≡ instance_id)
    × (r.stage_id ≡ d.id)
    × (r.is_inferred ≡ false)
    × (IsUnobserved instants d r ⊎ IsObserved instants d r)

missing_row-IsRowOf :
    (instance_id : ℕ) (instants : List (Text × EventOccurrence)) (d : StageDef)
    (reason : MissingReason)
    → (lookup d.start_event instants ≡ none) ⊎ (lookup d.end_event instants ≡ none)
    → IsRowOf instance_id instants d (missing_row instance_id d 0 reason)
missing_row-IsRowOf instance_id instants d reason gone =
    (refl, refl, refl, inl (gone, refl, refl, refl, refl, refl, refl, refl, refl, refl))

mark_deviation-IsRowOf :
    (instance_id : ℕ) (instants : List (Text × EventOccurrence)) (d : StageDef)
    (s e : EventOccurrence)
    → lookup d.start_event instants ≡ some s
    → lookup d.end_event instants ≡ some e
    → IsRowOf instance_id instants d
        (mark_deviation (hours_between s.utc_value e.utc_value) (available_row instance_id d 0 s e))
unfolding mark_deviation available_row
mark_deviation-IsRowOf instance_id instants d s e start end =
    let hours = hours_between s.utc_value e.utc_value in
    elim (sign_cases hours) [
      | inl (less, sign) ↦ rw sign (
        refl,
        refl,
        refl,
        inr (s, e, start, end, refl, refl, refl, refl, refl, refl, refl, inl (less, refl, refl)),
      )
      | inr (least, sign) ↦ rw sign (
        refl,
        refl,
        refl,
        inr (s, e, start, end, refl, refl, refl, refl, refl, refl, refl, inr (least, refl, refl)),
      )
    ]

-- The row of a stage of the main path, by the observations of the two events that the stage names: if
-- one of them is not observed, the row is missing, with no observation, time, duration or violation; if
-- both are, it is available and has their ids, their times and the signed time between them. It is
-- marked as a violation of the sequence exactly if both are observed and that time is negative, and
-- then the negative duration is kept. It is for its stage and never inferred.
pub build_stage_occurrence-IsRowOf :
    (instance_id : ℕ) (instants : List (Text × EventOccurrence)) (d : StageDef)
    → IsRowOf instance_id instants d (build_stage_occurrence instance_id instants d)
build_stage_occurrence-IsRowOf instance_id instants d =
    elim (build_stage_occurrence-cases instance_id instants d) [
      | inl (reason, gone, e) ↦
          subst (IsRowOf instance_id instants d) (sym e)
            (missing_row-IsRowOf instance_id instants d reason gone)
      | inr (s, t, start, end, e) ↦
          subst (IsRowOf instance_id instants d) (sym e)
            (mark_deviation-IsRowOf instance_id instants d s t start end)
    ]

-- Shifts are paired in their order: there is a row for each start or end, as many as the longer list,
-- numbered from 1, and all are coherent.
pub pair_shifts-IsCoherent :
    (instance_id : ℕ) (d : StageDef) (i : ℕ) (starts ends : List EventOccurrence)
    → (length (pair_shifts instance_id d i starts ends) ≡ max (length starts) (length ends))
      × All IsCoherent (pair_shifts instance_id d i starts ends)
unfolding pair_shifts available_row
pair_shifts-IsCoherent instance_id d i [] [] = (refl, tt)
pair_shifts-IsCoherent instance_id d i [] (e ∷ ends) =
    let (n, rest) = pair_shifts-IsCoherent instance_id d (suc i) [] ends in
    (ground arith, ((refl, inl (refl, refl, refl, refl, refl)), rest))
pair_shifts-IsCoherent instance_id d i (s ∷ starts) [] =
    let (n, rest) = pair_shifts-IsCoherent instance_id d (suc i) starts [] in
    (ground arith, ((refl, inl (refl, refl, refl, refl, refl)), rest))
pair_shifts-IsCoherent instance_id d i (s ∷ starts) (e ∷ ends) =
    let (n, rest) = pair_shifts-IsCoherent instance_id d (suc i) starts ends in
    (ground arith, ((refl, inr (s.utc_value, e.utc_value, refl, refl, refl, refl, refl)), rest))
