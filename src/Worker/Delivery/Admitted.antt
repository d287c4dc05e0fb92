-- ===== src/Worker/Delivery/Admitted.antt =====
-- Which delivered uploads are admitted.
use marine_time_motion_platf.Prelude.{
  ℕ, ◌≡◌, refl, ap, ◌∙◌, inl, inr, Bool, true, false, ◌||◌, not, List, [], ◌∷◌, map, ◌==◌,
  if◌then◌else◌, some, Option-cases, arith,
}
use mathlib.Core.Option
use marine_time_motion_platf.Worker.Batch.{
  committed, IngestionBatch, batch_by_id, update_batch, newest, is_done, is_closed,
}
use marine_time_motion_platf.Worker.Task.{admitted, stopped, supersede, begin, admit}

pub ||-true : (b : Bool) → (b || true) ≡ true
||-true true = refl
||-true false = refl

pub newest-map :
    (t : ℕ) (f : IngestionBatch → IngestionBatch) (batches : List IngestionBatch)
    → ((b : IngestionBatch) → ((f b).tenant_id ≡ b.tenant_id) × ((f b).created_at ≡ b.created_at))
    → newest t (map f batches) ≡ Option.map f (newest t batches)
unfolding newest
newest-map t f [] keeps = refl
newest-map t f (b ∷ batches) keeps = elim (Option-cases (newest t batches)) [
  | inl e ↦ ground (arith, keeps b, newest-map t f batches keeps)
  | inr (n, e) ↦ ground (arith, keeps b, keeps n, newest-map t f batches keeps)
]

pub newest-update_batch :
    (t i : ℕ) (f : IngestionBatch → IngestionBatch) (n : IngestionBatch)
    (batches : List IngestionBatch)
    → ((b : IngestionBatch) → ((f b).tenant_id ≡ b.tenant_id) × ((f b).created_at ≡ b.created_at))
    → newest t batches ≡ some n
    → newest t (update_batch i f batches) ≡ some (if n.batch_id == i then f n else n)
newest-update_batch t i f n batches keeps e =
    newest-map t (λ b. if b.batch_id == i then f b else b) batches (λ b. ground (arith, keeps b))
    ∙ ap (Option.map (λ (b : IngestionBatch). if b.batch_id == i then f b else b)) e

pub is_done_open :
    (n : IngestionBatch)
    → is_done n ≡ true
    → is_closed n.status ≡ false
    → (n.status ≡ committed) × (n.is_active ≡ true)
unfolding is_done is_closed
is_done_open n done opened = ground arith

-- The outcome of the admission by its tests.
pub admit_lem :
    (i t : ℕ) (b n : IngestionBatch) (batches : List IngestionBatch)
    → batch_by_id i batches ≡ some b
    → newest t batches ≡ some n
    → admit i t batches ≡ (
        if is_closed b.status || not (n.batch_id == i)
        then (stopped, update_batch i supersede batches)
        else (admitted, update_batch i begin batches))
unfolding admit
admit_lem i t b n batches found last = rw (found, admit) (rw last refl)
