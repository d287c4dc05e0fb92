-- ===== src/Worker/Delivery/Activation.antt =====
-- The youngest upload of a tenant is activated in the end.
use marine_time_motion_platf.Prelude.{
  ℕ, ◌≡◌, ◌≢◌, refl, sym, ap, subst, ◌∙◌, inl, inr, true, false, ◌||◌, not, List, [], ◌∷◌, map,
  ◌==◌, ==_iff, Option, some, Option-cases, Bool-cases, arith,
}
use mathlib.Core.Option
use native.Mathlib.Decide.{ℕ_discrete}
use marine_time_motion_platf.Prelude.Members.{In, find-In, find-none}
use marine_time_motion_platf.Worker.Batch.{
  committed, IngestionBatch, batch_by_id, newest, is_done, is_closed,
}
use marine_time_motion_platf.Worker.Batch.Newest.{newest-IsNewest}
use marine_time_motion_platf.Worker.Task.{
  Outcome, calculated, Db, Admission, admitted, stopped, raised, supersede, begin, commit, retire,
  admit, activate, complete, enter, process_task,
}
use marine_time_motion_platf.Worker.Task.Writes.{activated}
use marine_time_motion_platf.Worker.Task.Single.{IsSingle, IsOwn, admit-IsSingle, complete-IsSingle}
use marine_time_motion_platf.Worker.Delivery.Admitted.{
  ||-true, newest-map, newest-update_batch, is_done_open, admit_lem,
}

module _ {D : Type 0} (origin : D → Option ℕ) (calculate : ℕ → D → Outcome D) where
  enter-IsSingle :
      (i t : ℕ) (db : Db D) (a : Admission) (batches : List IngestionBatch)
      → ((d : D) → IsOwn origin i (calculate i d))
      → IsSingle origin (record db { batches = batches })
      → IsSingle origin (enter calculate i t db (a, batches))
  unfolding enter
  enter-IsSingle i t db admitted batches own s = complete-IsSingle origin _ i t _ (own _) s
  enter-IsSingle i t db stopped batches own s = s
  enter-IsSingle i t db raised batches own s = s

  process_task-IsSingle :
      (i t : ℕ) (db : Db D)
      → ((d : D) → IsOwn origin i (calculate i d))
      → IsSingle origin db
      → IsSingle origin (process_task calculate i t db)
  unfolding process_task
  process_task-IsSingle i t db own s = elim (Option-cases (batch_by_id i db.batches)) [
    | inl nothing ↦ rw (nothing, process_task) s
    | inr (b, found) ↦
        rw (found, process_task)
          (elim (Bool-cases (is_done b)) [
            | inl done ↦ rw done s
            | inr more ↦ rw more (
                enter-IsSingle i t db (admit i t db.batches).0 (admit i t db.batches).1 own
                  (admit-IsSingle origin i t db s))
          ])
  ]

  -- The youngest batch of a tenant.
  abbrev Youngest : ℕ → ℕ → IngestionBatch → Db D → Type 0
  Youngest i t n db = (newest t db.batches ≡ some n) × (n.batch_id ≡ i)

  -- The task of another batch of the tenant does not touch it.
  process_task-other :
      (i j t : ℕ) (n : IngestionBatch) (db : Db D)
      → i ≢ j
      → Youngest i t n db
      → Youngest i t n (process_task calculate j t db)
  unfolding process_task enter admit supersede
  process_task-other i j t n db ne y = elim (Option-cases (batch_by_id j db.batches)) [
    | inl nothing ↦ rw (nothing, process_task) y
    | inr (b, found) ↦
        rw (found, process_task)
          (elim (Bool-cases (is_done b)) [
            | inl done ↦ rw done y
            | inr more ↦
                let apart : (n.batch_id == j) ≡ false = ground (arith, y.1) in
                let stop : (is_closed b.status || not (n.batch_id == j)) ≡ true =
                  rw apart (||-true (is_closed b.status)) in
                let still =
                  newest-update_batch t j supersede n db.batches (λ c. (refl, refl)) y.0 in
                rw (more, admit_lem j t b n db.batches found y.0, stop)
                  (still ∙ ap some (rw apart), y.1)
          ])
  ]

  found :
      (i : ℕ) (n : IngestionBatch) (db : Db D)
      → IsSingle origin db
      → In n db.batches
      → n.batch_id ≡ i
      → batch_by_id i db.batches ≡ some n
  found i n db s j e = elim (Option-cases (batch_by_id i db.batches)) [
    | inl nothing ↦ absurd (ground (arith, find-none (λ b. b.batch_id == i) db.batches n nothing j))
    | inr (b, h) ↦
        let (k, same) = find-In (λ (b : IngestionBatch). b.batch_id == i) db.batches b h in
        h ∙ ap some (s.ids b n k j ((==_iff b.batch_id i).0 same ∙ sym e))
  ]

  abbrev pub IsActivated : ℕ → ℕ → Db D → Type 0
  IsActivated i t db =
      (m : IngestionBatch) × (newest t db.batches ≡ some m)
      × (m.batch_id ≡ i)
      × (m.status ≡ committed)
      × (m.is_active ≡ true)

  activate_own :
      (i t : ℕ) (d : D) (n : IngestionBatch) (db : Db D)
      → newest t db.batches ≡ some n
      → n.batch_id ≡ i
      → IsActivated i t (activate i t d db)
  unfolding activate commit retire
  activate_own i t d n db y e =
      let same : (n.batch_id == i) ≡ true = ground arith in
      let retired =
        newest-map t (retire n) db.batches (λ c. (ground arith, ground arith))
        ∙ ap (Option.map (retire n)) y in
      let last =
        newest-update_batch t i commit (retire n n) (map (retire n) db.batches) (λ c. (refl, refl))
          retired in
      (activated i n n, rw (y, activate) (rw same last), ground arith, ground arith, ground arith)

  -- Its own task activates it.
  process_task-own :
      (i t : ℕ) (n : IngestionBatch) (db : Db D)
      → IsSingle origin db
      → ((d : D) → (d' : D) × (calculate i d ≡ calculated d'))
      → Youngest i t n db
      → is_closed n.status ≡ false
      → IsActivated i t (process_task calculate i t db)
  unfolding process_task enter complete begin
  process_task-own i t n db s good y opened =
      let at : batch_by_id i db.batches ≡ some n =
        found i n db s (newest-IsNewest t db.batches n y.0).member y.1 in
      elim (Bool-cases (is_done n)) [
        | inl done ↦
            rw (at, process_task)
              (rw done
                (n, y.0, y.1, (is_done_open n done opened).0, (is_done_open n done opened).1))
        | inr more ↦
            let go : (is_closed n.status || not (n.batch_id == i)) ≡ false = ground (arith, y.1) in
            let (d, e) = good (db.dataset t) in
            rw (at, process_task)
              (rw (more, admit_lem i t n n db.batches at y.0, go, e)
                (activate_own i t d (begin n) _
                  (newest-update_batch t i begin n db.batches (λ c. (refl, refl)) y.0
                    ∙ ap some (ground (arith, y.1)))
                  y.1))
      ]

  kept_active :
      (i j t : ℕ) (db : Db D)
      → IsSingle origin db
      → IsActivated i t db
      → IsActivated i t (process_task calculate j t db)
  unfolding process_task is_done
  kept_active i j t db s (n, y, e, status, active) = elim (ℕ_discrete i j) [
    | yes same ↦
        let at : batch_by_id j db.batches ≡ some n =
          found j n db s (newest-IsNewest t db.batches n y).member (e ∙ same) in
        rw (at, process_task) (rw (status, active) (n, y, e, status, active))
    | no other ↦
        let (y', e') = process_task-other i j t n db other (y, e) in (n, y', e', status, active)
  ]

  -- Deliveries for a tenant, one after another.
  abbrev pub deliver : ℕ → List ℕ → Db D → Db D
  deliver t [] db = db
  deliver t (j ∷ js) db = deliver t js (process_task calculate j t db)

  deliver_keeps :
      (i t : ℕ) (js : List ℕ) (db : Db D)
      → ((j : ℕ) (d : D) → IsOwn origin j (calculate j d))
      → IsSingle origin db
      → IsActivated i t db
      → IsActivated i t (deliver t js db)
  deliver_keeps i t [] db own s a = a
  deliver_keeps i t (j ∷ js) db own s a =
      deliver_keeps i t js (process_task calculate j t db) own
        (process_task-IsSingle j t db (own j) s) (kept_active i j t db s a)

  -- From tables with at most one active batch of each tenant, which every schedule keeps so: whatever
  -- deliveries for a tenant follow each other, also repeated ones and those of older batches, and
  -- whether these succeed, if that of the youngest batch is among them, the batch is
  -- neither superseded nor failed at the start, and its calculation gives a dataset, then in the end
  -- it is the committed and active one.
  pub deliver-IsActivated :
      (i t : ℕ) (n : IngestionBatch) (js : List ℕ) (db : Db D)
      → ((j : ℕ) (d : D) → IsOwn origin j (calculate j d))
      → ((d : D) → (d' : D) × (calculate i d ≡ calculated d'))
      → IsSingle origin db
      → newest t db.batches ≡ some n
      → n.batch_id ≡ i
      → is_closed n.status ≡ false
      → In i js
      → IsActivated i t (deliver t js db)
  deliver-IsActivated i t n [] db own good s y e opened h = absurd h
  deliver-IsActivated i t n (j ∷ js) db own good s y e opened h = elim (ℕ_discrete i j) [
    | yes same ↦
        deliver_keeps i t js (process_task calculate j t db) own
          (process_task-IsSingle j t db (own j) s)
          (subst (λ k. IsActivated i t (process_task calculate k t db)) same
            (process_task-own i t n db s good (y, e) opened))
    | no other ↦
        let (y', e') = process_task-other i j t n db other (y, e) in
        deliver-IsActivated i t n js (process_task calculate j t db) own good
          (process_task-IsSingle j t db (own j) s) y' e' opened (among other h)
  ]
    where
      among : i ≢ j → In i (j ∷ js) → In i js
      among other (inl same) = absurd (other same)
      among other (inr rest) = rest
