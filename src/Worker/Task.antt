-- ===== src/Worker/Task.antt =====
-- apps/worker/main.py: process_ingestion_analytics_task. The calculation of the new dataset, from the
-- reset of the old one to the dashboard snapshot, is a parameter: it gives a dataset or raises.
pub mod Writes
pub mod Single
use marine_time_motion_platf.Prelude.{
  ℕ, Bool, true, false, ◌&&◌, ◌||◌, not, List, map, ltb, ◌==◌, if◌then◌else◌, Option, none, some,
}
use marine_time_motion_platf.Prelude.Text.{Text}
use marine_time_motion_platf.Worker.Batch.{
  Status, processing, committed, superseded, failed, Message, newer_upload, text_of, reference,
  IngestionBatch, batch_by_id, update_batch, newest, is_done, is_closed,
}

pub data Outcome (D : Type 0) : Type 0 where
  calculated : D → Outcome D
  value_error : Text → Outcome D
  other_error : Outcome D

-- The batches, and for each tenant the rest of its rows.
pub record Db (D : Type 0) : Type 0 where
  pub batches : List IngestionBatch
  pub dataset : ℕ → D

unfoldable pub supersede : IngestionBatch → IngestionBatch
supersede b = record b { status = superseded; is_active = false }

unfoldable pub begin : IngestionBatch → IngestionBatch
begin b = record b { status = processing; error_message = none }

-- The handler of `_SupersededByNewerUpload`.
unfoldable pub supersede_late : IngestionBatch → IngestionBatch
supersede_late b = record b {
  status = superseded;
  is_active = false;
  error_message = some newer_upload;
}

-- The handler of every other exception.
unfoldable pub fail : Message → IngestionBatch → IngestionBatch
fail m b = record b { status = failed; is_active = false; error_message = some m }

unfoldable pub commit : IngestionBatch → IngestionBatch
commit b = record b { status = committed; is_active = true; error_message = none }

-- The update of the tenant's other, older batches.
unfoldable pub retire : IngestionBatch → IngestionBatch → IngestionBatch
unfolding supersede
retire new b =
    if (b.tenant_id == new.tenant_id)
      && not (b.batch_id == new.batch_id)
      && ltb b.created_at new.created_at
    then supersede b
    else b

pub data Admission : Type 0 where
  admitted stopped raised : Admission

-- From the lock to the first commit.
unfoldable pub admit : ℕ → ℕ → List IngestionBatch → Admission × List IngestionBatch
admit i t batches = elim (batch_by_id i batches) [
  | none ↦ (raised, batches)
  | some b ↦ elim (newest t batches) [
    | none ↦ (raised, update_batch i (fail (reference i)) batches)
    | some n ↦
        if is_closed b.status || not (n.batch_id == i)
        then (stopped, update_batch i supersede batches)
        else (admitted, update_batch i begin batches)
  ]
]

module _ {D : Type 0} where
  abbrev pub set_dataset : ℕ → D → (ℕ → D) → ℕ → D
  set_dataset t d f u = if u == t then d else f u

  -- The end of the transaction: by the second look at the newest batch it is kept or rolled back.
  unfoldable pub activate : ℕ → ℕ → D → Db D → Db D
  activate i t d db = elim (newest t db.batches) [
    | none ↦ record db { batches = update_batch i (fail (reference i)) db.batches }
    | some n ↦
        if n.batch_id == i
        then record {
          batches = update_batch i commit (map (retire n) db.batches);
          dataset = set_dataset t d db.dataset;
        }
        else record db { batches = update_batch i supersede_late db.batches }
  ]

  unfoldable pub complete : Outcome D → ℕ → ℕ → Db D → Db D
  complete (calculated d) i t db = activate i t d db
  complete (value_error m) i t db = record db {
    batches = update_batch i (fail (text_of m)) db.batches;
  }
  complete other_error i t db = record db {
    batches = update_batch i (fail (reference i)) db.batches;
  }

  unfoldable pub enter : (ℕ → D → Outcome D) → ℕ → ℕ → Db D → Admission × List IngestionBatch → Db D
  enter calculate i t db (admitted, batches) =
      complete (calculate i (db.dataset t)) i t (record db { batches = batches })
  enter calculate i t db (stopped, batches) = record db { batches = batches }
  enter calculate i t db (raised, batches) = record db { batches = batches }

  -- One delivery of the message, with nothing in between.
  unfoldable pub process_task : (ℕ → D → Outcome D) → ℕ → ℕ → Db D → Db D
  unfolding enter admit complete activate
  process_task calculate i t db = elim (batch_by_id i db.batches) [
    | none ↦ db
    | some b ↦ if is_done b then db else enter calculate i t db (admit i t db.batches)
  ]
