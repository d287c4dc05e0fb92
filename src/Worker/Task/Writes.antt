-- ===== src/Worker/Task/Writes.antt =====
-- Writes to the batches, and which of them are active after an activation.
use marine_time_motion_platf.Prelude.{ℕ, ◌≤◌, ◌≡◌, ◌⊎◌, true, List, map, ◌==◌, if◌then◌else◌, arith}
use marine_time_motion_platf.Prelude.Members.{In, In-map}
use marine_time_motion_platf.Worker.Batch.{IngestionBatch, update_batch}
use marine_time_motion_platf.Worker.Task.{commit, retire}

-- A write that activates nothing.
abbrev pub IsQuiet : (IngestionBatch → IngestionBatch) → Type 0
IsQuiet f =
    (b : IngestionBatch)
    → ((f b).batch_id ≡ b.batch_id)
      × ((f b).tenant_id ≡ b.tenant_id)
      × ((f b).created_at ≡ b.created_at)
      × ((f b).is_active ≡ true → b.is_active ≡ true)

pub traced :
    (f : IngestionBatch → IngestionBatch) (b c : IngestionBatch)
    → IsQuiet f
    → b ≡ f c
    → (b.batch_id ≡ c.batch_id)
      × (b.tenant_id ≡ c.tenant_id)
      × (b.created_at ≡ c.created_at)
      × (b.is_active ≡ true → c.is_active ≡ true)
traced f b c quiet e = rw e (quiet c)

abbrev pub activated : ℕ → IngestionBatch → IngestionBatch → IngestionBatch
activated i n c = let r = retire n c in if r.batch_id == i then commit r else r

-- An active batch after the activation is the new one, or was active and is of another tenant.
pub activated_lem :
    (i : ℕ) (n b c : IngestionBatch)
    → b ≡ activated i n c
    → n.batch_id ≡ i
    → (b.batch_id ≡ c.batch_id)
      × (b.tenant_id ≡ c.tenant_id)
      × (b.created_at ≡ c.created_at)
      × (b.is_active ≡ true
          → (c.batch_id ≡ i)
            ⊎ ((c.is_active ≡ true) × (c.tenant_id ≡ n.tenant_id → n.created_at ≤ c.created_at)))
unfolding commit retire
activated_lem i n b c e h = rw e (ground arith)

pub activated_from :
    (i : ℕ) (n : IngestionBatch) (batches : List IngestionBatch) (b : IngestionBatch)
    → In b (update_batch i commit (map (retire n) batches))
    → (c : IngestionBatch) × In c batches × (b ≡ activated i n c)
activated_from i n batches b h =
    let (r, j, p) =
      In-map (λ x. if x.batch_id == i then commit x else x) (map (retire n) batches) b h in
    let (c, k, q) = In-map (retire n) batches r j in (c, k, rw (← q) p)
