-- ===== src/Worker/Delivery.antt =====
-- Whole deliveries of the message to apps/worker/main.py, one after another: what a delivery settles.
pub mod Atomic
pub mod Admitted
pub mod Activation
use marine_time_motion_platf.Prelude.{
  ℕ, ◌≡◌, refl, sym, ap, ◌∙◌, ◌⊎◌, inl, inr, Bool, true, false, ◌&&◌, ◌||◌, not, List, [], ◌∷◌, map,
  find, ◌==◌, if◌then◌else◌, Option, none, some, Option-cases, Bool-cases, arith,
}
use marine_time_motion_platf.Worker.Batch.{
  IngestionBatch, reference, text_of, batch_by_id, update_batch, newest, is_done, is_closed,
}
use marine_time_motion_platf.Worker.Task.{
  Outcome, calculated, value_error, other_error, Db, Admission, admitted, stopped, raised,
  supersede, begin, supersede_late, fail, commit, retire, admit, activate, complete, enter,
  process_task,
}

-- A write that keeps the id.
abbrev pub KeepsId : (IngestionBatch → IngestionBatch) → Type 0
KeepsId f = (b : IngestionBatch) → (f b).batch_id ≡ b.batch_id

-- There is no batch with the id, or nothing is left to do for it.
abbrev pub IsSettled : ℕ → List IngestionBatch → Type 0
IsSettled i batches =
    (batch_by_id i batches ≡ none)
    ⊎ ((b : IngestionBatch) × (batch_by_id i batches ≡ some b) × (is_done b ≡ true))

pub update_batch-IsSettled :
    (i : ℕ) (f : IngestionBatch → IngestionBatch) (batches : List IngestionBatch)
    → KeepsId f
    → ((b : IngestionBatch) → is_done (f b) ≡ true)
    → IsSettled i (update_batch i f batches)
update_batch-IsSettled i f [] keeps done = inl refl
update_batch-IsSettled i f (x ∷ xs) keeps done = elim (Bool-cases (x.batch_id == i)) [
  | inl here ↦ inr (f x, ground (arith, keeps x), done x)
  | inr other ↦ elim (update_batch-IsSettled i f xs keeps done) [
    | inl e ↦ inl (ground arith)
    | inr (b, e, d) ↦ inr (b, ground arith, d)
  ]
]

module _ {D : Type 0} where
  activate-IsSettled : (i t : ℕ) (d : D) (db : Db D) → IsSettled i (activate i t d db).batches
  unfolding activate is_done fail supersede_late commit
  activate-IsSettled i t d db = elim (Option-cases (newest t db.batches)) [
    | inl nothing ↦
        rw (nothing, activate)
          (update_batch-IsSettled i (fail (reference i)) db.batches (λ b. refl) (λ b. refl))
    | inr (n, e) ↦
        rw (e, activate)
          (elim (Bool-cases (n.batch_id == i)) [
            | inl same ↦ rw same (
                update_batch-IsSettled i commit (map (retire n) db.batches) (λ b. refl) (λ b. refl))
            | inr other ↦
                rw other
                  (update_batch-IsSettled i supersede_late db.batches (λ b. refl) (λ b. refl))
          ])
  ]

  complete-IsSettled :
      (out : Outcome D) (i t : ℕ) (db : Db D) → IsSettled i (complete out i t db).batches
  unfolding complete fail is_done
  complete-IsSettled (calculated d) i t db = activate-IsSettled i t d db
  complete-IsSettled (value_error m) i t db =
      update_batch-IsSettled i (fail (text_of m)) db.batches (λ b. refl) (λ b. refl)
  complete-IsSettled other_error i t db =
      update_batch-IsSettled i (fail (reference i)) db.batches (λ b. refl) (λ b. refl)

  enter-IsSettled :
      (calculate : ℕ → D → Outcome D) (i t : ℕ) (db : Db D)
      → IsSettled i (enter calculate i t db (admit i t db.batches)).batches
  unfolding enter admit fail supersede is_done
  enter-IsSettled calculate i t db = elim (Option-cases (batch_by_id i db.batches)) [
    | inl nothing ↦ rw (nothing, admit) (inl nothing)
    | inr (b, found) ↦
        rw (found, admit)
          (elim (Option-cases (newest t db.batches)) [
            | inl nothing ↦
                rw nothing
                  (update_batch-IsSettled i (fail (reference i)) db.batches (λ b. refl) (λ b. refl))
            | inr (n, last) ↦
                rw last (elim (Bool-cases (is_closed b.status || not (n.batch_id == i))) [
                  | inl e ↦
                      rw e (update_batch-IsSettled i supersede db.batches (λ b. refl) (λ b. refl))
                  | inr e ↦ rw e (complete-IsSettled _ i t _)
                ])
          ])
  ]

  process_task-IsSettled :
      (calculate : ℕ → D → Outcome D) (i t : ℕ) (db : Db D)
      → IsSettled i (process_task calculate i t db).batches
  unfolding process_task is_done
  process_task-IsSettled calculate i t db = elim (Option-cases (batch_by_id i db.batches)) [
    | inl nothing ↦ rw (nothing, process_task) (inl nothing)
    | inr (b, found) ↦
        rw (found, process_task)
          (elim (Bool-cases (is_done b)) [
            | inl done ↦ rw done (inr (b, found, done))
            | inr more ↦ rw more (enter-IsSettled calculate i t db)
          ])
  ]

  settled_stays :
      (calculate : ℕ → D → Outcome D) (i t : ℕ) (db : Db D)
      → IsSettled i db.batches
      → process_task calculate i t db ≡ db
  unfolding process_task
  settled_stays calculate i t db (inl nothing) = rw (nothing, process_task)
  settled_stays calculate i t db (inr (b, found, done)) = rw (found, process_task) (rw done)

  -- A delivery settles its batch: whatever comes of it, also an error, any further delivery of the
  -- same message, with whatever result the calculation would have then, changes nothing.
  pub process_task_settles :
      (first again : ℕ → D → Outcome D) (i t : ℕ) (db : Db D)
      → process_task again i t (process_task first i t db) ≡ process_task first i t db
  process_task_settles first again i t db =
      settled_stays again i t _ (process_task-IsSettled first i t db)
