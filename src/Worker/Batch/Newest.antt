-- ===== src/Worker/Batch/Newest.antt =====
-- What the newest batch of a tenant is.
use marine_time_motion_platf.Prelude.{
  ℕ, ◌≤◌, ◌≡◌, ◌≢◌, ap, inl, inr, List, [], ◌∷◌, none, some, Option-cases, arith,
}
use marine_time_motion_platf.Prelude.Members.{In}
use marine_time_motion_platf.Worker.Batch.{IngestionBatch, newest}

-- `n` is a batch of the tenant, and none of the tenant's is younger.
pub record IsNewest (t : ℕ) (batches : List IngestionBatch) (n : IngestionBatch) : Type 0 where
  pub member : In n batches
  pub tenant : n.tenant_id ≡ t
  pub last : (b : IngestionBatch) → In b batches → b.tenant_id ≡ t → b.created_at ≤ n.created_at

newest-none :
    (t : ℕ) (batches : List IngestionBatch) (b : IngestionBatch)
    → newest t batches ≡ none
    → In b batches
    → b.tenant_id ≢ t
unfolding newest
newest-none t [] b h i e = i
newest-none t (x ∷ xs) b h (inl same) e =
    ground (arith, ap (λ (c : IngestionBatch). c.tenant_id) same)
newest-none t (x ∷ xs) b h (inr i) e = elim (Option-cases (newest t xs)) [
  | inl nothing ↦ newest-none t xs b nothing i e
  | inr (c, found) ↦ ground arith
]

newest-member :
    (t : ℕ) (batches : List IngestionBatch) (n : IngestionBatch)
    → newest t batches ≡ some n
    → In n batches × (n.tenant_id ≡ t)
unfolding newest
newest-member t [] n h = absurd (ground arith)
newest-member t (x ∷ xs) n h = elim (Option-cases (newest t xs)) [
  | inl nothing ↦ ground arith
  | inr (c, found) ↦ ground (arith, newest-member t xs c found)
]

newest-last :
    (t : ℕ) (batches : List IngestionBatch) (n b : IngestionBatch)
    → newest t batches ≡ some n
    → In b batches
    → b.tenant_id ≡ t
    → b.created_at ≤ n.created_at
unfolding newest
newest-last t [] n b h i e = absurd i
newest-last t (x ∷ xs) n b h i e = elim (Option-cases (newest t xs)) [
  | inl nothing ↦ ground (arith, newest-none t xs b nothing)
  | inr (c, found) ↦ ground (arith, newest-last t xs c b found)
]

pub newest-IsNewest :
    (t : ℕ) (batches : List IngestionBatch) (n : IngestionBatch)
    → newest t batches ≡ some n
    → IsNewest t batches n
newest-IsNewest t batches n h = record {
  member = (newest-member t batches n h).0;
  tenant = (newest-member t batches n h).1;
  last = λ b. newest-last t batches n b h;
}
