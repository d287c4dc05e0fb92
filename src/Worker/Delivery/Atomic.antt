-- ===== src/Worker/Delivery/Atomic.antt =====
-- A delivery is all or nothing.
use marine_time_motion_platf.Prelude.{
  ℕ, ◌≤◌, ◌≡◌, ◌≢◌, refl, subst, ◌∙◌, ◌⊎◌, inl, inr, true, ◌||◌, not, List, [], ◌∷◌, map, ◌==◌,
  ==_iff, if◌then◌else◌, Option-cases, Bool-cases, arith,
}
use marine_time_motion_platf.Prelude.Members.{In, map-In}
use marine_time_motion_platf.Worker.Batch.{
  IngestionBatch, reference, text_of, batch_by_id, update_batch, newest, is_done, is_closed,
}
use marine_time_motion_platf.Worker.Batch.Newest.{IsNewest, newest-IsNewest}
use marine_time_motion_platf.Worker.Task.Writes.{activated, activated_lem, activated_from}
use marine_time_motion_platf.Worker.Task.{
  Outcome, calculated, value_error, other_error, Db, supersede, begin, supersede_late, fail, commit,
  retire, admit, set_dataset, activate, complete, enter, process_task,
}

update_batch_id :
    (i : ℕ) (batches : List IngestionBatch) → batches ≡ update_batch i (λ b. b) batches
update_batch_id i [] = refl
update_batch_id i (b ∷ batches) = ground (arith, update_batch_id i batches)

update_batch-update_batch :
    (i : ℕ) (f g : IngestionBatch → IngestionBatch) (batches : List IngestionBatch)
    → ((b : IngestionBatch) → (g b).batch_id ≡ b.batch_id)
    → update_batch i f (update_batch i g batches) ≡ update_batch i (λ b. f (g b)) batches
update_batch-update_batch i f g [] keeps = refl
update_batch-update_batch i f g (b ∷ batches) keeps =
    ground (arith, keeps b, update_batch-update_batch i f g batches keeps)

module _ {D : Type 0} where
  -- The datasets are as before, and of the batches at most the one that was delivered has changed.
  pub record IsKept (i : ℕ) (db db' : Db D) : Type 0 where
    pub dataset : db'.dataset ≡ db.dataset
    pub change : IngestionBatch → IngestionBatch
    pub batches : db'.batches ≡ update_batch i change db.batches

  -- The tenant has the new dataset, its batch is the youngest and the one that is active, and
  -- nothing of another tenant has changed.
  pub record IsReplaced (i t : ℕ) (d : D) (db db' : Db D) : Type 0 where
    pub dataset : db'.dataset ≡ set_dataset t d db.dataset
    pub active :
        (b : IngestionBatch) × In b db'.batches
        × (b.batch_id ≡ i)
        × (b.tenant_id ≡ t)
        × (b.is_active ≡ true)
        × ((c : IngestionBatch) → In c db'.batches → c.tenant_id ≡ t → c.created_at ≤ b.created_at)
    pub others :
        (c : IngestionBatch) → In c db.batches → c.tenant_id ≢ t → c.batch_id ≢ i → In c db'.batches

  unchanged : (i : ℕ) (db : Db D) → IsKept i db db
  unchanged i db = record {
    dataset = refl;
    change = λ b. b;
    batches = update_batch_id i db.batches;
  }

  -- The activation of the youngest batch.
  commits-IsReplaced :
      (i t : ℕ) (n : IngestionBatch) (d : D) (db : Db D)
      → IsNewest t db.batches n
      → n.batch_id ≡ i
      → IsReplaced i t d db (record {
        batches = update_batch i commit (map (retire n) db.batches);
        dataset = set_dataset t d db.dataset;
      })
  unfolding commit retire
  commits-IsReplaced i t n d db last e = record {
    dataset = refl;
    active = (
      activated i n n,
      map-In (λ x. if x.batch_id == i then commit x else x) _ _
          (map-In (retire n) db.batches n last.member),
      ground (arith, activated_lem i n (activated i n n) n refl e),
      ground (arith, activated_lem i n (activated i n n) n refl e, last.tenant),
      ground arith,
      λ c j h.
          let (c', j', p) = activated_from i n db.batches c j in
          ground (
            arith,
            activated_lem i n (activated i n n) n refl e,
            activated_lem i n c c' p e,
            last.last c' j',
          ),
    );
    others = λ c j h h'.
        let kept : activated i n c ≡ c = ground (arith, last.tenant) in
        subst (λ x. In x (update_batch i commit (map (retire n) db.batches))) kept
          (map-In (λ x. if x.batch_id == i then commit x else x) _ _
            (map-In (retire n) db.batches c j));
  }

  activate_atomic :
      (i t : ℕ) (d : D) (db : Db D)
      → IsKept i db (activate i t d db) ⊎ IsReplaced i t d db (activate i t d db)
  unfolding activate
  activate_atomic i t d db = elim (Option-cases (newest t db.batches)) [
    | inl nothing ↦
        rw (nothing, activate)
          (inl (record { dataset = refl; change = fail (reference i); batches = refl }))
    | inr (n, e) ↦
        rw (e, activate)
          (elim (Bool-cases (n.batch_id == i)) [
            | inl same ↦ rw same (
                inr (
                  commits-IsReplaced i t n d db (newest-IsNewest t db.batches n e)
                    ((==_iff n.batch_id i).0 same)))
            | inr other ↦
                rw other (inl (record { dataset = refl; change = supersede_late; batches = refl }))
          ])
  ]

  complete_atomic :
      (out : Outcome D) (i t : ℕ) (db : Db D)
      → IsKept i db (complete out i t db)
        ⊎ ((d : D) × (out ≡ calculated d) × IsReplaced i t d db (complete out i t db))
  unfolding complete
  complete_atomic (calculated d) i t db = elim (activate_atomic i t d db) [
    | inl kept ↦ inl kept
    | inr new ↦ inr (d, refl, new)
  ]
  complete_atomic (value_error m) i t db =
      inl (record { dataset = refl; change = fail (text_of m); batches = refl })
  complete_atomic other_error i t db =
      inl (record { dataset = refl; change = fail (reference i); batches = refl })

  -- From after the first commit of the task to before it.
  begun-IsKept :
      (i : ℕ) (db db' : Db D)
      → IsKept i (record db { batches = update_batch i begin db.batches }) db'
      → IsKept i db db'
  unfolding begin
  begun-IsKept i db db' k = record {
    dataset = k.dataset;
    change = λ b. k.change (begin b);
    batches = k.batches ∙ update_batch-update_batch i k.change begin db.batches (λ b. refl);
  }

  begun-IsReplaced :
      (i t : ℕ) (d : D) (db db' : Db D)
      → IsReplaced i t d (record db { batches = update_batch i begin db.batches }) db'
      → IsReplaced i t d db db'
  begun-IsReplaced i t d db db' r = record {
    dataset = r.dataset;
    active = r.active;
    others = λ c j h h'.
        let kept : (if c.batch_id == i then begin c else c) ≡ c = ground arith in
        let stays =
          subst (λ x. In x (update_batch i begin db.batches)) kept
            (map-In (λ x. if x.batch_id == i then begin x else x) db.batches c j) in
        r.others c stays h h';
  }

  enter_atomic :
      (calculate : ℕ → D → Outcome D) (i t : ℕ) (db : Db D)
      → let db' = enter calculate i t db (admit i t db.batches) in
        IsKept i db db'
        ⊎ ((d : D) × (calculate i (db.dataset t) ≡ calculated d) × IsReplaced i t d db db')
  unfolding enter admit
  enter_atomic calculate i t db = elim (Option-cases (batch_by_id i db.batches)) [
    | inl nothing ↦ rw (nothing, admit) (inl (unchanged i db))
    | inr (b, found) ↦
        rw (found, admit)
          (elim (Option-cases (newest t db.batches)) [
            | inl nothing ↦
                rw nothing
                  (inl (record { dataset = refl; change = fail (reference i); batches = refl }))
            | inr (n, last) ↦
                rw last (elim (Bool-cases (is_closed b.status || not (n.batch_id == i))) [
                  | inl e ↦
                      rw e (inl (record { dataset = refl; change = supersede; batches = refl }))
                  | inr e ↦
                      rw e
                        (elim (complete_atomic (calculate i (db.dataset t)) i t
                          (record db { batches = update_batch i begin db.batches })) [
                            | inl kept ↦ inl (begun-IsKept i db _ kept)
                            | inr (d, out, new) ↦ inr (d, out, begun-IsReplaced i t d db _ new)
                          ])
                ])
          ])
  ]

  -- A delivery is all or nothing. Either the datasets of all tenants are as they were, and no batch
  -- but the delivered one has changed; or the calculation gave a dataset, which the tenant now has,
  -- the delivered batch is active and no batch of the tenant is younger, and no other batch and no
  -- dataset of another tenant has changed.
  pub process_task_atomic :
      (calculate : ℕ → D → Outcome D) (i t : ℕ) (db : Db D)
      → let db' = process_task calculate i t db in
        IsKept i db db'
        ⊎ ((d : D) × (calculate i (db.dataset t) ≡ calculated d) × IsReplaced i t d db db')
  unfolding process_task
  process_task_atomic calculate i t db = elim (Option-cases (batch_by_id i db.batches)) [
    | inl nothing ↦ rw (nothing, process_task) (inl (unchanged i db))
    | inr (b, found) ↦
        rw (found, process_task)
          (elim (Bool-cases (is_done b)) [
            | inl done ↦ rw done (inl (unchanged i db))
            | inr more ↦ rw more (enter_atomic calculate i t db)
          ])
  ]
