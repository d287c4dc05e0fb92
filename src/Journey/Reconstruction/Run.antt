-- ===== src/Journey/Reconstruction/Run.antt =====
-- What a run leaves behind.
use marine_time_motion_platf.Prelude.{
  filter-append, ℕ, suc, ◌≡◌, ◌≢◌, refl, ap, ap₂, append_nil, subst, ◌∙◌, inl, inr, not, List, [],
  ◌∷◌, ◌++◌, map, filter, All, Option, none, some, Option-cases, arith,
}
use marine_time_motion_platf.Prelude.Text.{Text}
use marine_time_motion_platf.Journey.Occurrence.{EventOccurrence, ok}
use marine_time_motion_platf.Journey.Selector.{Selector, QualityIssue, resolve_vessel_call}
use marine_time_motion_platf.Journey.Timeline.{
  StageDef, StageOccurrence, EventMap, build_event_instant_map,
}
use marine_time_motion_platf.Journey.Selector.Slots.{Result-cases}
use marine_time_motion_platf.Journey.Reconstruction.{
  JourneyInstance, StoredStage, Journeys, ReconstructionHistory, all_rows, report_of, store_stages,
  instance_of, next_version, put_instance, of_instance, reconstruct_vessel_call,
}
use marine_time_motion_platf.Journey.Reconstruction.Rows.{Belongs, all_rows-Belongs}

-- The stored rows of an instance after those of a run have replaced them.
rows_after :
    (i next_id : ℕ) (rows : List StageOccurrence)
    → All (Belongs i) rows
    → map (λ s. s.row) (filter (of_instance i) (store_stages next_id rows)) ≡ rows
unfolding store_stages
rows_after i next_id [] h = refl
rows_after i next_id (r ∷ rows) h = ground (arith, h.0, rows_after i (suc next_id) rows h.1)

others_after :
    (i j next_id : ℕ) (rows : List StageOccurrence)
    → All (Belongs i) rows
    → i ≢ j
    → filter (of_instance j) (store_stages next_id rows) ≡ []
unfolding store_stages
others_after i j next_id [] h other = refl
others_after i j next_id (r ∷ rows) h other =
    ground (arith, h.0, others_after i j (suc next_id) rows h.1 other)

removed :
    (i : ℕ) (stored : List StoredStage)
    → filter (of_instance i) (filter (λ t. not (of_instance i t)) stored) ≡ []
removed i [] = refl
removed i (s ∷ stored) = ground (arith, removed i stored)

kept :
    (i j : ℕ) (stored : List StoredStage)
    → i ≢ j
    → filter (of_instance j) (filter (λ t. not (of_instance i t)) stored)
      ≡ filter (of_instance j) stored
kept i j [] other = refl
kept i j (s ∷ stored) other = ground (arith, kept i j stored other)

instance_of-put_instance :
    (new : JourneyInstance) (instances : List JourneyInstance)
    → instance_of new.vessel_call_id (put_instance new instances) ≡ some new
unfolding put_instance
instance_of-put_instance new [] = ground arith
instance_of-put_instance new (i ∷ instances) =
    ground (arith, instance_of-put_instance new instances)

put_found :
    (call : ℕ) (new : JourneyInstance) (instances : List JourneyInstance)
    → new.vessel_call_id ≡ call
    → instance_of call (put_instance new instances) ≡ some new
put_found call new instances e =
    subst (λ c. instance_of c (put_instance new instances) ≡ some new) e
      (instance_of-put_instance new instances)

find-call :
    (call : ℕ) (instances : List JourneyInstance) (i : JourneyInstance)
    → instance_of call instances ≡ some i
    → i.vessel_call_id ≡ call
find-call call [] i h = ground arith
find-call call (x ∷ instances) i h = ground (arith, find-call call instances i)

next_version-call :
    (new_id call : ℕ) (instances : List JourneyInstance)
    → (next_version new_id call instances).vessel_call_id ≡ call
unfolding next_version
next_version-call new_id call instances = elim (Option-cases (instance_of call instances)) [
  | inl e ↦ ground arith
  | inr (i, e) ↦ ground (arith, find-call call instances i e)
]

-- The next version of a journey is the first, or the one after the last.
next_version_lem :
    (new_id call : ℕ) (instances : List JourneyInstance)
    → (next_version new_id call instances).reconstruction_version
      ≡ elim (instance_of call instances) [ none ↦ 1 | some i ↦ suc i.reconstruction_version ]
unfolding next_version
next_version_lem new_id call instances = ground arith

module _ (s : Selector) (issues : List QualityIssue) (name_of : ℕ → Text)
    (event_name : ℕ → Option Text) (stages : List StageDef) (now new_id next_id : ℕ)
    (triggered_by : Text) (call : ℕ) (occurrences : List EventOccurrence) where
  abbrev entry : JourneyInstance → EventMap → ReconstructionHistory
  entry i m = record {
    journey_instance_id = i.id;
    vessel_call_id = call;
    run_version = i.reconstruction_version;
    triggered_by = triggered_by;
    report = report_of i.id stages m;
    stages = all_rows i.id stages m;
  }

  reconstruct_vessel_call-tables :
      (db db' : Journeys)
      → reconstruct_vessel_call s issues name_of event_name stages now new_id next_id triggered_by
          call occurrences db
        ≡ ok db'
      → let i = next_version new_id call db.instances in
        (m : EventMap) × (db'.instances
          ≡ put_instance (record i { report = some (report_of i.id stages m) }) db.instances)
        × (db'.stages
            ≡ filter (λ t. not (of_instance i.id t)) db.stages
              ++ store_stages next_id (all_rows i.id stages m))
        × (db'.history ≡ db.history ++ entry i m ∷ [])
  unfolding reconstruct_vessel_call
  reconstruct_vessel_call-tables db db' h =
      elim (Result-cases
        (resolve_vessel_call s issues name_of now call occurrences db.observations)) [
          | inl (e, failed_run) ↦ ground arith
          | inr ((results, observations), run) ↦
              elim (Result-cases
                (build_event_instant_map event_name call occurrences observations)) [
                  | inl (e, failed_map) ↦ ground arith
                  | inr (m, made) ↦ (m, ground arith, ground arith, ground arith)
                ]
        ]

  -- What a run leaves for its call: one more entry of the history, with the next version; an
  -- instance with that version and report; exactly the entry's rows; and the rows of every other
  -- journey as they were.
  abbrev pub IsRun : Journeys → Journeys → Type 0
  IsRun db db' =
      (h : ReconstructionHistory) × (i : JourneyInstance) × (db'.history ≡ db.history ++ h ∷ [])
      × (h.run_version ≡ elim (instance_of call db.instances) [
        | none ↦ 1
        | some old ↦ suc old.reconstruction_version
      ])
      × (instance_of call db'.instances ≡ some i)
      × (i.reconstruction_version ≡ h.run_version)
      × (i.report ≡ some h.report)
      × (map (λ t. t.row) (filter (of_instance i.id) db'.stages) ≡ h.stages)
      × ((j : ℕ) → i.id ≢ j → filter (of_instance j) db'.stages ≡ filter (of_instance j) db.stages)

  -- A run that goes through appends one entry to the history, whose version is 1 or follows the last
  -- one, leaves the instance at that version with the same report, replaces all stage rows of the
  -- journey by those of the entry, and leaves the rows of every other journey alone.
  pub reconstruct_vessel_call-IsRun :
      (db db' : Journeys)
      → reconstruct_vessel_call s issues name_of event_name stages now new_id next_id triggered_by
          call occurrences db
        ≡ ok db'
      → IsRun db db'
  reconstruct_vessel_call-IsRun db db' done =
      let i = next_version new_id call db.instances in
      let (m, instances, rows, history) = reconstruct_vessel_call-tables db db' done in
      let all_of = all_rows i.id stages m in
      (
        entry i m,
        record i { report = some (report_of i.id stages m) },
        history,
        next_version_lem new_id call db.instances,
        ap (instance_of call) instances
            ∙ put_found call (record i { report = some (report_of i.id stages m) }) db.instances
                (next_version-call new_id call db.instances),
        refl,
        refl,
        ap (λ l. map (λ t. t.row) (filter (of_instance i.id) l)) rows
            ∙ ap (map (λ t. t.row)) (
                filter-append (of_instance i.id) _ (store_stages next_id all_of)
                ∙ ap (λ l. l ++ filter (of_instance i.id) (store_stages next_id all_of))
                    (removed i.id db.stages))
            ∙ rows_after i.id next_id all_of (all_rows-Belongs i.id stages m),
        λ j other.
            ap (filter (of_instance j)) rows
            ∙ filter-append (of_instance j) _ (store_stages next_id all_of)
            ∙ ap₂ (λ a b. a ++ b) (kept i.id j db.stages other)
                (others_after i.id j next_id all_of (all_rows-Belongs i.id stages m) other)
            ∙ append_nil (filter (of_instance j) db.stages),
      )
