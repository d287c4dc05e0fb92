-- ===== src/Worker/Task/Single.antt =====
-- One active dataset for each tenant, whatever uploads and tasks come between each other.
use marine_time_motion_platf.Prelude.{
  ℕ, ◌≡◌, ◌≢◌, sym, ap, ◌∙◌, ◌⊎◌, inl, inr, true, map, not, ◌||◌, ◌==◌, if◌then◌else◌, Option, some,
  Option-cases, Bool-cases, ==_iff, arith,
}
use native.Mathlib.Decide.{ℕ_discrete}
use marine_time_motion_platf.Prelude.Members.{In, In-map}
use marine_time_motion_platf.Worker.Batch.{
  IngestionBatch, reference, batch_by_id, update_batch, newest, is_closed,
}
use marine_time_motion_platf.Worker.Batch.Newest.{IsNewest, newest-IsNewest}
use marine_time_motion_platf.Worker.Task.{
  Outcome, calculated, value_error, other_error, Db, supersede, begin, supersede_late, fail, commit,
  retire, admit, set_dataset, activate, complete,
}
use marine_time_motion_platf.Worker.Task.Writes.{
  IsQuiet, traced, activated, activated_lem, activated_from,
}

-- Ids are unique, no two batches of a tenant are created at once, and the one active batch of a
-- tenant is that from which the tenant's dataset was calculated.
pub record IsSingle {D : Type 0} (origin : D → Option ℕ) (db : Db D) : Type 0 where
  pub ids :
      (b c : IngestionBatch) → In b db.batches → In c db.batches → b.batch_id ≡ c.batch_id → b ≡ c
  pub clock :
      (b c : IngestionBatch)
      → In b db.batches
      → In c db.batches
      → b.tenant_id ≡ c.tenant_id
      → b.created_at ≡ c.created_at
      → b.batch_id ≡ c.batch_id
  pub single :
      (b c : IngestionBatch)
      → In b db.batches
      → In c db.batches
      → b.is_active ≡ true
      → c.is_active ≡ true
      → b.tenant_id ≡ c.tenant_id
      → b.batch_id ≡ c.batch_id
  pub live :
      (b : IngestionBatch)
      → In b db.batches
      → b.is_active ≡ true
      → origin (db.dataset b.tenant_id) ≡ some b.batch_id

module _ {D : Type 0} (origin : D → Option ℕ) where
  map-IsSingle :
      (f : IngestionBatch → IngestionBatch)
      → IsQuiet f
      → (db : Db D) → IsSingle origin db
      → IsSingle origin (record db { batches = map f db.batches })
  map-IsSingle f quiet db s = record {
    ids = λ b c i j e.
        let (b', i', p) = In-map f db.batches b i in
        let (c', j', q) = In-map f db.batches c j in
        let same : b'.batch_id ≡ c'.batch_id =
          ground (arith, traced f b b' quiet p, traced f c c' quiet q) in
        p ∙ ap f (s.ids b' c' i' j' same) ∙ sym q;
    clock = λ b c i j e e'.
        let (b', i', p) = In-map f db.batches b i in
        let (c', j', q) = In-map f db.batches c j in
        ground (arith, traced f b b' quiet p, traced f c c' quiet q, s.clock b' c' i' j');
    single = λ b c i j x y e.
        let (b', i', p) = In-map f db.batches b i in
        let (c', j', q) = In-map f db.batches c j in
        ground (arith, traced f b b' quiet p, traced f c c' quiet q, s.single b' c' i' j');
    live = λ b i x.
        let (b', i', p) = In-map f db.batches b i in
        let (id, tenant, time, active) = traced f b b' quiet p in
        ap (λ t. origin (db.dataset t)) tenant ∙ s.live b' i' (active x) ∙ ap some (sym id);
  }

  -- The writes to one batch that activate nothing.
  pub update_batch-IsSingle :
      (i : ℕ) (f : IngestionBatch → IngestionBatch)
      → IsQuiet f
      → (db : Db D) → IsSingle origin db
      → IsSingle origin (record db { batches = update_batch i f db.batches })
  update_batch-IsSingle i f quiet db s =
      map-IsSingle (λ b. if b.batch_id == i then f b else b) (λ b. ground (arith, quiet b)) db s

  pub admit-IsSingle :
      (i t : ℕ) (db : Db D)
      → IsSingle origin db
      → IsSingle origin (record db { batches = (admit i t db.batches).1 })
  unfolding admit fail supersede begin
  admit-IsSingle i t db s = elim (Option-cases (batch_by_id i db.batches)) [
    | inl nothing ↦ rw (nothing, admit) s
    | inr (b, found) ↦
        rw (found, admit)
          (elim (Option-cases (newest t db.batches)) [
            | inl nothing ↦
                rw nothing (update_batch-IsSingle i (fail (reference i)) (λ c. ground arith) db s)
            | inr (n, last) ↦
                rw last (elim (Bool-cases (is_closed b.status || not (n.batch_id == i))) [
                  | inl e ↦ rw e (update_batch-IsSingle i supersede (λ c. ground arith) db s)
                  | inr e ↦ rw e (update_batch-IsSingle i begin (λ c. ground arith) db s)
                ])
          ])
  ]

  -- A batch that is active afterwards and of the same tenant is the new one.
  only_new :
      (i t : ℕ) (n b c : IngestionBatch) (db : Db D)
      → IsSingle origin db
      → IsNewest t db.batches n
      → n.batch_id ≡ i
      → In c db.batches
      → b ≡ activated i n c
      → b.is_active ≡ true
      → ((b.tenant_id ≡ t) × (b.batch_id ≡ i)) ⊎ ((c.is_active ≡ true) × (b.tenant_id ≢ t))
  only_new i t n b c db s last e j p x = elim (ℕ_discrete c.tenant_id t) [
    | yes own ↦
        let traced = activated_lem i n b c p e in
        let newer = s.clock c n j last.member in
        inl (ground (arith, last.last c j), ground (arith, last.last c j))
    | no other ↦
        let traced = activated_lem i n b c p e in
        let apart : c.batch_id ≢ i = λ h. other (
          ap (λ (r : IngestionBatch). r.tenant_id) (s.ids c n j last.member (h ∙ sym e))
          ∙ last.tenant) in
        inr (ground arith, ground arith)
  ]

  commits-IsSingle :
      (i t : ℕ) (n : IngestionBatch) (d : D) (db : Db D)
      → origin d ≡ some i
      → IsSingle origin db
      → IsNewest t db.batches n
      → n.batch_id ≡ i
      → IsSingle origin (record {
        batches = update_batch i commit (map (retire n) db.batches);
        dataset = set_dataset t d db.dataset;
      })
  commits-IsSingle i t n d db own s last e = record {
    ids = λ b c k l h.
        let (b', k', p) = activated_from i n db.batches b k in
        let (c', l', q) = activated_from i n db.batches c l in
        let same : b'.batch_id ≡ c'.batch_id =
          ground (arith, activated_lem i n b b' p e, activated_lem i n c c' q e) in
        p ∙ ap (activated i n) (s.ids b' c' k' l' same) ∙ sym q;
    clock = λ b c k l h h'.
        let (b', k', p) = activated_from i n db.batches b k in
        let (c', l', q) = activated_from i n db.batches c l in
        ground (arith, activated_lem i n b b' p e, activated_lem i n c c' q e, s.clock b' c' k' l');
    single = λ b c k l x y h.
        let (b', k', p) = activated_from i n db.batches b k in
        let (c', l', q) = activated_from i n db.batches c l in
        ground (
          arith,
          activated_lem i n b b' p e,
          activated_lem i n c c' q e,
          only_new i t n b b' db s last e k' p x,
          only_new i t n c c' db s last e l' q y,
          s.single b' c' k' l',
        );
    live = λ b k x.
        let (b', k', p) = activated_from i n db.batches b k in
        ground
          (arith, activated_lem i n b b' p e, only_new i t n b b' db s last e k' p x, s.live b' k');
  }

  activate-IsSingle :
      (i t : ℕ) (d : D) (db : Db D)
      → origin d ≡ some i
      → IsSingle origin db
      → IsSingle origin (activate i t d db)
  unfolding activate fail supersede_late
  activate-IsSingle i t d db own s = elim (Option-cases (newest t db.batches)) [
    | inl nothing ↦
        rw (nothing, activate)
          (update_batch-IsSingle i (fail (reference i)) (λ c. ground arith) db s)
    | inr (n, e) ↦
        rw (e, activate)
          (elim (Bool-cases (n.batch_id == i)) [
            | inl same ↦ rw same (
                commits-IsSingle i t n d db own s (newest-IsNewest t db.batches n e)
                  ((==_iff n.batch_id i).0 same))
            | inr other ↦ rw other (update_batch-IsSingle i supersede_late (λ c. ground arith) db s)
          ])
  ]

  -- What is known of the outcome of a calculation.
  abbrev pub IsOwn : ℕ → Outcome D → Type 0
  IsOwn i (calculated d) = origin d ≡ some i
  IsOwn i (value_error m) = Unit
  IsOwn i other_error = Unit

  pub complete-IsSingle :
      (out : Outcome D) (i t : ℕ) (db : Db D)
      → IsOwn i out
      → IsSingle origin db
      → IsSingle origin (complete out i t db)
  unfolding complete fail
  complete-IsSingle (calculated d) i t db own s = activate-IsSingle i t d db own s
  complete-IsSingle (value_error m) i t db own s =
      update_batch-IsSingle i (fail _) (λ b. ground arith) db s
  complete-IsSingle other_error i t db own s =
      update_batch-IsSingle i (fail _) (λ b. ground arith) db s
