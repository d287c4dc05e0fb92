-- ===== src/Worker/Schedule.antt =====
-- Uploads and workers between each other: the tasks of apps/worker/main.py at the points where they
-- commit, and `_queue_candidate` of apps/api/routers/ingestion.py.
use marine_time_motion_platf.Prelude.{
  ℕ, ◌<◌, ◌≡◌, ◌≢◌, sym, ap, ◌∙◌, ◌⊎◌, inl, inr, true, false, List, [], ◌∷◌, ◌++◌, ◌==◌,
  if◌then◌else◌, Option, none, some, arith,
}
use marine_time_motion_platf.Prelude.Members.{In, In-append}
use marine_time_motion_platf.Worker.Batch.{Status, IngestionBatch, update_batch}
use marine_time_motion_platf.Worker.Task.{Outcome, Db, admitted, admit, complete}
use marine_time_motion_platf.Worker.Task.Single.{
  IsSingle, IsOwn, update_batch-IsSingle, admit-IsSingle, complete-IsSingle,
}

-- `running t` is the batch whose worker holds the lock of a tenant.
pub record System (D : Type 0) : Type 0 where
  pub db : Db D
  pub running : ℕ → Option ℕ

-- A write of the upload handler, which keeps the batch inactive.
unfoldable pub prepare : Status → IngestionBatch → IngestionBatch
prepare status b = record b { status = status; is_active = false }

abbrev pub set_running : ℕ → Option ℕ → (ℕ → Option ℕ) → ℕ → Option ℕ
set_running t r f u = if u == t then r else f u

-- A new batch has a new id, and is younger than all of its tenant.
abbrev pub IsNew : IngestionBatch → List IngestionBatch → Type 0
IsNew b batches =
    (c : IngestionBatch)
    → In c batches
    → (c.batch_id ≢ b.batch_id) × (c.tenant_id ≡ b.tenant_id → c.created_at < b.created_at)

-- `origin` says from which batch a dataset was calculated.
module _ {D : Type 0} (origin : D → Option ℕ) where
  pub data Step : System D → System D → Type 0 where
    upload :
        (s : System D) (b : IngestionBatch)
        → b.is_active ≡ false
        → IsNew b s.db.batches
        → Step s (record s { db = record s.db { batches = s.db.batches ++ b ∷ [] } })
    prepares :
        (s : System D) (i : ℕ) (status : Status)
        → Step s (record s {
          db = record s.db { batches = update_batch i (prepare status) s.db.batches };
        })
    admits :
        (s : System D) (i t : ℕ)
        → s.running t ≡ none
        → (admit i t s.db.batches).0 ≡ admitted
        → Step s (record {
          db = record s.db { batches = (admit i t s.db.batches).1 };
          running = set_running t (some i) s.running;
        })
    refuses :
        (s : System D) (i t : ℕ)
        → s.running t ≡ none
        → (admit i t s.db.batches).0 ≢ admitted
        → Step s (record s { db = record s.db { batches = (admit i t s.db.batches).1 } })
    completes :
        (s : System D) (i t : ℕ) (out : Outcome D)
        → s.running t ≡ some i
        → IsOwn origin i out
        → Step s (record { db = complete out i t s.db; running = set_running t none s.running })
    -- A worker dies: its transaction and its lock are gone.
    dies : (s : System D) (t : ℕ) → Step s (record s { running = set_running t none s.running })

  pub data Steps (start : System D) : System D → Type 0 where
    here : Steps start start
    next : {s u : System D} → Steps start s → Step s u → Steps start u

  old_or_new :
      (b x : IngestionBatch) (batches : List IngestionBatch)
      → In x (batches ++ b ∷ [])
      → In x batches ⊎ (x ≡ b)
  old_or_new b x batches h = elim (In-append x batches (b ∷ []) h) [
    | inl old ↦ inl old
    | inr (inl e) ↦ inr e
    | inr (inr none_left) ↦ absurd none_left
  ]

  module _ (db : Db D) (b : IngestionBatch) (off : b.is_active ≡ false) where
    upload-ids :
        (x y : IngestionBatch)
        → IsNew b db.batches
        → IsSingle origin db
        → In x db.batches ⊎ (x ≡ b)
        → In y db.batches ⊎ (y ≡ b)
        → x.batch_id ≡ y.batch_id
        → x ≡ y
    upload-ids x y new s (inl i) (inl j) h = s.ids x y i j h
    upload-ids x y new s (inl i) (inr q) h = absurd ((new x i).0 (h ∙ ap IngestionBatch.batch_id q))
    upload-ids x y new s (inr p) (inl j) h =
        absurd ((new y j).0 (sym h ∙ ap IngestionBatch.batch_id p))
    upload-ids x y new s (inr p) (inr q) h = p ∙ sym q

    upload-clock :
        (x y : IngestionBatch)
        → IsNew b db.batches
        → IsSingle origin db
        → In x db.batches ⊎ (x ≡ b)
        → In y db.batches ⊎ (y ≡ b)
        → x.tenant_id ≡ y.tenant_id
        → x.created_at ≡ y.created_at
        → x.batch_id ≡ y.batch_id
    upload-clock x y new s (inl i) (inl j) h h' = s.clock x y i j h h'
    upload-clock x y new s (inl i) (inr q) h h' = ground (arith, new x i)
    upload-clock x y new s (inr p) (inl j) h h' = ground (arith, new y j)
    upload-clock x y new s (inr p) (inr q) h h' = ground arith

    upload-single :
        (x y : IngestionBatch)
        → IsSingle origin db
        → In x db.batches ⊎ (x ≡ b)
        → In y db.batches ⊎ (y ≡ b)
        → x.is_active ≡ true
        → y.is_active ≡ true
        → x.tenant_id ≡ y.tenant_id
        → x.batch_id ≡ y.batch_id
    upload-single x y s (inl i) (inl j) h h' e = s.single x y i j h h' e
    upload-single x y s (inl i) (inr q) h h' e = ground arith
    upload-single x y s (inr p) j h h' e = ground arith

    upload-live :
        (x : IngestionBatch)
        → IsSingle origin db
        → In x db.batches ⊎ (x ≡ b)
        → x.is_active ≡ true
        → origin (db.dataset x.tenant_id) ≡ some x.batch_id
    upload-live x s (inl i) h = s.live x i h
    upload-live x s (inr p) h = ground arith

    -- An upload changes nothing of what was active.
    upload-IsSingle :
        IsNew b db.batches
        → IsSingle origin db
        → IsSingle origin (record db { batches = db.batches ++ b ∷ [] })
    upload-IsSingle new s = record {
      ids = λ x y i j.
          upload-ids x y new s (old_or_new b x db.batches i) (old_or_new b y db.batches j);
      clock = λ x y i j.
          upload-clock x y new s (old_or_new b x db.batches i) (old_or_new b y db.batches j);
      single = λ x y i j.
          upload-single x y s (old_or_new b x db.batches i) (old_or_new b y db.batches j);
      live = λ x i. upload-live x s (old_or_new b x db.batches i);
    }

  Step-IsSingle : {s u : System D} → Step s u → IsSingle origin s.db → IsSingle origin u.db
  unfolding prepare
  Step-IsSingle (upload s b off new) h = upload-IsSingle s.db b off new h
  Step-IsSingle (prepares s i status) h =
      update_batch-IsSingle origin i (prepare status) (λ b. ground arith) s.db h
  Step-IsSingle (admits s i t free e) h = admit-IsSingle origin i t s.db h
  Step-IsSingle (refuses s i t free e) h = admit-IsSingle origin i t s.db h
  Step-IsSingle (completes s i t out held own) h = complete-IsSingle origin out i t s.db own h
  Step-IsSingle (dies s t) h = h

  -- Whatever uploads, tasks, failures and deaths of workers follow each other: a tenant never has
  -- two active batches, and the dataset of a tenant with an active batch is that which was
  -- calculated from this batch, if it was so at the start, ids are unique and times of creation too.
  pub Steps-IsSingle : {s u : System D} → Steps s u → IsSingle origin s.db → IsSingle origin u.db
  Steps-IsSingle here h = h
  Steps-IsSingle (next steps step) h = Step-IsSingle step (Steps-IsSingle steps h)
