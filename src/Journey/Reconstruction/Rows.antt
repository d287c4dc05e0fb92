-- ===== src/Journey/Reconstruction/Rows.antt =====
-- The rows of a run: each is coherent, and each belongs to the run.
use marine_time_motion_platf.Prelude.{
  ℕ, suc, ◌+◌, ◌<◌, ◌≡◌, ◌↔◌, refl, inl, inr, List, [], ◌∷◌, map, filter, All, All-append, length,
  arith,
}
use marine_time_motion_platf.Prelude.Text.{Text}
use marine_time_motion_platf.Journey.Occurrence.{EventOccurrence}
use marine_time_motion_platf.Journey.Timeline.{
  StageDef, StageOccurrence, EventMap, build_stage_occurrence, build_shift_occurrences, pair_shifts,
  available_row, mark_deviation,
}
use marine_time_motion_platf.Journey.Timeline.Rows.{
  IsCoherent, build_stage_occurrence_coherent, pair_shifts-IsCoherent,
}
use marine_time_motion_platf.Journey.Reconstruction.{
  reconstructed, count, coverage_of, is_main, is_branch, main_rows, shift_rows, all_rows, report_of,
}

build_shift_occurrences-IsCoherent :
    (i : ℕ) (ds : List StageDef) (repeatable : List (Text × List EventOccurrence))
    → All IsCoherent (build_shift_occurrences i ds repeatable)
unfolding build_shift_occurrences
build_shift_occurrences-IsCoherent i [] repeatable = tt
build_shift_occurrences-IsCoherent i (d ∷ ds) repeatable = (pair_shifts-IsCoherent i d 0 _ _).1

build_stages-IsCoherent :
    (i : ℕ) (instants : List (Text × EventOccurrence)) (ds : List StageDef)
    → All IsCoherent (map (build_stage_occurrence i instants) ds)
build_stages-IsCoherent i instants [] = tt
build_stages-IsCoherent i instants (d ∷ ds) =
    ((build_stage_occurrence_coherent i instants d).0, build_stages-IsCoherent i instants ds)

all_rows-IsCoherent :
    (i : ℕ) (stages : List StageDef) (m : EventMap) → All IsCoherent (all_rows i stages m)
unfolding all_rows main_rows shift_rows
all_rows-IsCoherent i stages m =
    All-append IsCoherent _ _
      (All-append IsCoherent _ _ (build_stages-IsCoherent i m.instants (filter is_main stages))
        (build_stages-IsCoherent i m.instants (filter is_branch stages)))
      (build_shift_occurrences-IsCoherent i (filter (λ d. d.is_repeatable) stages) m.repeatable)

count_coherent :
    (rows : List StageOccurrence)
    → All IsCoherent rows
    → (count (λ r. r.is_available) rows + count (λ r. r.is_missing) rows ≡ length rows)
      × (count (λ r. r.is_inferred) rows ≡ 0)
unfolding count
count_coherent [] h = (refl, refl)
count_coherent (r ∷ rows) h = elim (h.0.1) [
  | inl absent ↦ ground (arith, h.0.0, absent, count_coherent rows h.1)
  | inr (s, e, available, present, start, end, hours) ↦
      ground (arith, h.0.0, available, present, count_coherent rows h.1)
]

-- The coverage of a run adds up: every stage is either available or missing, none is inferred, and
-- the journey counts as reconstructed exactly if a stage is available.
pub report_of-coverage :
    (i : ℕ) (stages : List StageDef) (m : EventMap)
    → let r = report_of i stages m in
      let c = r.coverage_summary in
      (c.stages_available + c.stages_missing ≡ c.stages_total)
      × (c.stages_total ≡ length (all_rows i stages m))
      × (c.stages_inferred ≡ 0)
      × ((r.status ≡ reconstructed) ↔ (0 < c.stages_available))
unfolding report_of coverage_of
report_of-coverage i stages m =
    let (sum, inferred) = count_coherent (all_rows i stages m) (all_rows-IsCoherent i stages m) in
    (sum, refl, inferred, ground arith)

-- The rows of a run belong to its instance.
abbrev pub Belongs : ℕ → StageOccurrence → Type 0
Belongs i r = r.journey_instance_id ≡ i

build_stage_occurrence-Belongs :
    (i : ℕ) (instants : List (Text × EventOccurrence)) (d : StageDef)
    → Belongs i (build_stage_occurrence i instants d)
unfolding build_stage_occurrence mark_deviation available_row
build_stage_occurrence-Belongs i instants d = ground arith

build_stages-Belongs :
    (i : ℕ) (instants : List (Text × EventOccurrence)) (ds : List StageDef)
    → All (Belongs i) (map (build_stage_occurrence i instants) ds)
build_stages-Belongs i instants [] = tt
build_stages-Belongs i instants (d ∷ ds) =
    (build_stage_occurrence-Belongs i instants d, build_stages-Belongs i instants ds)

pair_shifts-Belongs :
    (i : ℕ) (d : StageDef) (n : ℕ) (starts ends : List EventOccurrence)
    → All (Belongs i) (pair_shifts i d n starts ends)
unfolding pair_shifts available_row
pair_shifts-Belongs i d n [] [] = tt
pair_shifts-Belongs i d n [] (e ∷ ends) = (refl, pair_shifts-Belongs i d (suc n) [] ends)
pair_shifts-Belongs i d n (s ∷ starts) [] = (refl, pair_shifts-Belongs i d (suc n) starts [])
pair_shifts-Belongs i d n (s ∷ starts) (e ∷ ends) =
    (refl, pair_shifts-Belongs i d (suc n) starts ends)

build_shift_occurrences-Belongs :
    (i : ℕ) (ds : List StageDef) (repeatable : List (Text × List EventOccurrence))
    → All (Belongs i) (build_shift_occurrences i ds repeatable)
unfolding build_shift_occurrences
build_shift_occurrences-Belongs i [] repeatable = tt
build_shift_occurrences-Belongs i (d ∷ ds) repeatable = pair_shifts-Belongs i d 0 _ _

pub all_rows-Belongs :
    (i : ℕ) (stages : List StageDef) (m : EventMap) → All (Belongs i) (all_rows i stages m)
unfolding all_rows main_rows shift_rows
all_rows-Belongs i stages m =
    All-append (Belongs i) _ _
      (All-append (Belongs i) _ _ (build_stages-Belongs i m.instants (filter is_main stages))
        (build_stages-Belongs i m.instants (filter is_branch stages)))
      (build_shift_occurrences-Belongs i (filter (λ d. d.is_repeatable) stages) m.repeatable)
