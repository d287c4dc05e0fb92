-- ===== src/Worker/Tests.antt =====
-- Two uploads of one tenant, of which the older is delivered too late.
use marine_time_motion_platf.Prelude.{
  ℕ, ◌≡◌, refl, ◌⊎◌, inl, inr, false, [], ◌∷◌, map, Option, none, some, arith,
}
use marine_time_motion_platf.Worker.Batch.{
  processing, committed, superseded, IngestionBatch, newest, is_closed, is_done,
}
use marine_time_motion_platf.Worker.Task.{
  Outcome, calculated, other_error, Db, begin, retire, commit, process_task,
}
use marine_time_motion_platf.Worker.Task.Single.{IsSingle}
use marine_time_motion_platf.Worker.Schedule.{System, Steps, here, next, upload, Steps-IsSingle}
use marine_time_motion_platf.Worker.Delivery.{process_task_settles}
use marine_time_motion_platf.Worker.Delivery.Atomic.{IsKept, IsReplaced, process_task_atomic}
use marine_time_motion_platf.Worker.Delivery.Activation.{IsActivated, deliver, deliver-IsActivated}

-- A dataset is named by its batch.
abbrev same_batch : Option ℕ → Option ℕ
same_batch d = d

abbrev calculation : ℕ → Option ℕ → Outcome (Option ℕ)
calculation i d = calculated (some i)

abbrev failure : ℕ → Option ℕ → Outcome (Option ℕ)
failure i d = other_error

abbrev batch : ℕ → ℕ → IngestionBatch
batch i time = record {
  batch_id = i;
  tenant_id = 7;
  created_at = time;
  status = processing;
  is_active = false;
  error_message = none;
}

abbrev empty : System (Option ℕ)
empty = record { db = record { batches = []; dataset = λ t. none }; running = λ t. none }

abbrev two : Db (Option ℕ)
two = record { batches = batch 2 20 ∷ batch 3 30 ∷ []; dataset = λ t. none }

empty-IsSingle : IsSingle same_batch empty.db
empty-IsSingle = record {
  ids = λ b c i j. absurd i;
  clock = λ b c i j. absurd i;
  single = λ b c i j. absurd i;
  live = λ b i. absurd i;
}

two_uploads : Steps same_batch empty (record { db = two; running = λ t. none })
two_uploads =
    next (next here (upload empty (batch 2 20) refl (λ c h. absurd h)))
      (upload _ (batch 3 30) refl (λ c h. ground arith))

Steps-IsSingle_example : IsSingle same_batch two
Steps-IsSingle_example = Steps-IsSingle same_batch two_uploads empty-IsSingle

two-IsSingle : IsSingle same_batch two
two-IsSingle = Steps-IsSingle same_batch two_uploads empty-IsSingle

late :
    map
      (λ (b : IngestionBatch). b.status)
      (deliver same_batch calculation 7 (3 ∷ 2 ∷ 3 ∷ []) two).batches
    ≡ superseded ∷ committed ∷ []
unfolding process_task is_done newest is_closed begin retire commit
late = refl

deliver-IsActivated_example :
    IsActivated same_batch calculation 3 7 (deliver same_batch calculation 7 (2 ∷ 3 ∷ 2 ∷ []) two)
unfolding newest is_closed
deliver-IsActivated_example =
    deliver-IsActivated same_batch calculation 3 7 (batch 3 30) (2 ∷ 3 ∷ 2 ∷ []) two (λ j d. refl)
      (λ d. (some 3, refl)) two-IsSingle refl refl refl (inr (inl refl))

process_task_settles_example :
    process_task calculation 3 7 (process_task failure 3 7 two) ≡ process_task failure 3 7 two
process_task_settles_example = process_task_settles failure calculation 3 7 two

process_task_atomic_example :
    IsKept 3 two (process_task calculation 3 7 two)
    ⊎ ((d : Option ℕ) × (calculation 3 (two.dataset 7) ≡ calculated d)
        × IsReplaced 3 7 d two (process_task calculation 3 7 two))
process_task_atomic_example = process_task_atomic calculation 3 7 two
