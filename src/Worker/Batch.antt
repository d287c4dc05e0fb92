-- ===== src/Worker/Batch.antt =====
-- apps/api/models/ingestion.py: the uploaded batches, and what apps/worker/main.py asks of them.
-- Ids and times are only compared, so they are natural numbers.
pub mod Newest
use marine_time_motion_platf.Prelude.{
  ℕ, Bool, true, false, List, [], ◌∷◌, map, find, ltb, ◌==◌, if◌then◌else◌, Option, none, some,
}
use marine_time_motion_platf.Prelude.Text.{Text}

pub data Status : Type 0 where
  uploaded parsed mapped validated dry_run_completed processing committed superseded failed : Status

-- `error_message`: that a newer upload came, the text of a `ValueError`, or the batch to refer to.
pub data Message : Type 0 where
  newer_upload : Message
  text_of : Text → Message
  reference : ℕ → Message

pub record IngestionBatch : Type 0 where
  pub batch_id : ℕ
  pub tenant_id : ℕ
  pub created_at : ℕ
  pub status : Status
  pub is_active : Bool
  pub error_message : Option Message

abbrev pub batch_by_id : ℕ → List IngestionBatch → Option IngestionBatch
batch_by_id i batches = find (λ b. b.batch_id == i) batches

-- A write to the row with an id, if there is one.
abbrev pub update_batch :
    ℕ → (IngestionBatch → IngestionBatch) → List IngestionBatch → List IngestionBatch
update_batch i f batches = map (λ b. if b.batch_id == i then f b else b) batches

abbrev pub later : IngestionBatch → Option IngestionBatch → IngestionBatch
later b none = b
later b (some c) = if ltb b.created_at c.created_at then c else b

-- `where(tenant_id == t).order_by(created_at.desc()).limit(1)`
unfoldable pub newest : ℕ → List IngestionBatch → Option IngestionBatch
newest t [] = none
newest t (b ∷ batches) =
    let rest = newest t batches in if b.tenant_id == t then some (later b rest) else rest

-- The first check of the task: nothing is left to do.
unfoldable pub is_done : IngestionBatch → Bool
is_done b = elim b.status [
  | superseded ↦ true
  | failed ↦ true
  | committed ↦ b.is_active
  | _ ↦ false
]

unfoldable pub is_closed : Status → Bool
is_closed superseded = true
is_closed failed = true
is_closed _ = false
