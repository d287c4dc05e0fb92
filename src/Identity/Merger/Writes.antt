-- ===== src/Identity/Merger/Writes.antt =====
-- Writes to the row of one vessel call.
use marine_time_motion_platf.Prelude.{
  ℕ, ◌≡◌, refl, sym, ap, ◌≢◌, ◌∙◌, List, [], ◌∷◌, All, arith, ◌==◌, ==_iff, some, if◌then◌else◌,
  Bool-cases, inl, inr,
}
use mathlib.Core.Path.{fun_ext}
use marine_time_motion_platf.Identity.Record.{
  Column, Value, VesselCall, column_index, column_index-injective, set_column,
}
use marine_time_motion_platf.Identity.Store.{call_by_id}
use marine_time_motion_platf.Identity.Merger.{apply_entries, mark_merged, apply_serialized}

-- No two vessel calls have one id.
abbrev pub HasUniqueCalls : List VesselCall → Type 0
HasUniqueCalls [] = Unit
HasUniqueCalls (x ∷ xs) = All (λ v. v.id ≢ x.id) xs × HasUniqueCalls xs

-- The call that is found by an id is the only one with that id.
pub only_call :
    (i : ℕ) (v : VesselCall) (calls : List VesselCall)
    → HasUniqueCalls calls
    → call_by_id i calls ≡ some v
    → All (λ x. x.id ≡ i → x ≡ v) calls
only_call i v [] h e = tt
only_call i v (x ∷ xs) h e = elim (Bool-cases (x.id == i)) [
  | inl here ↦ ((λ _. ground arith), others xs h.0 ((==_iff x.id i).0 here))
  | inr later ↦ ((λ same. ground arith), only_call i v xs h.1 (ground arith))
]
  where
    others :
        (rows : List VesselCall)
        → All (λ r. r.id ≢ x.id) rows
        → x.id ≡ i
        → All (λ r. r.id ≡ i → r ≡ v) rows
    others [] k same = tt
    others (r ∷ rs) k same = ((λ q. absurd (k.0 (q ∙ sym same))), others rs k.1 same)

-- Writing the value that a column has changes nothing.
pub set_column_same :
    (c : Column) (v : Value) (call : VesselCall) → call.get c ≡ v → set_column c v call ≡ call
unfolding set_column
set_column_same c v call h =
    ap (λ (g : Column → Value). record call { get = g })
      (fun_ext (λ d. elim (Bool-cases (column_index c == column_index d)) [
        | inl same ↦
            rw same (sym h ∙ ap call.get (column_index-injective c d ((==_iff _ _).0 same)))
        | inr other ↦ rw other
      ]))

pub apply_entries-id :
    (entries : List (Column × Value)) (call : VesselCall)
    → ((apply_entries entries call).id ≡ call.id)
      × ((apply_entries entries call).created_at ≡ call.created_at)
unfolding apply_entries
apply_entries-id [] call = (refl, refl)
apply_entries-id ((c, v) ∷ entries) call =
    ground (arith, apply_entries-id entries call, apply_entries-id entries (set_column c v call))

pub mark_merged-twin :
    (i : ℕ) (call : VesselCall)
    → ((mark_merged i call).id ≡ call.id) × ((mark_merged i call).created_at ≡ call.created_at)
unfolding set_column
mark_merged-twin i call = (refl, refl)

-- A write to the row with an id, seen at one row.
unfoldable pub at_row : ℕ → (VesselCall → VesselCall) → VesselCall → VesselCall
at_row i f v = if v.id == i then f v else v

pub at_row_hit :
    (i : ℕ) (f : VesselCall → VesselCall) (v : VesselCall) → v.id ≡ i → at_row i f v ≡ f v
unfolding at_row
at_row_hit i f v h = rw ((==_iff v.id i).1 h)

pub at_row_miss :
    (i : ℕ) (f : VesselCall → VesselCall) (v : VesselCall) → v.id ≢ i → at_row i f v ≡ v
unfolding at_row
at_row_miss i f v h = elim (Bool-cases (v.id == i)) [
  | inl same ↦ absurd (h ((==_iff v.id i).0 same))
  | inr other ↦ rw other
]

-- Two rows that agree but for the columns of a snapshot.
abbrev pub AreTwins : VesselCall → VesselCall → Type 0
AreTwins a x = (a.id ≡ x.id) × (a.created_at ≡ x.created_at)

pub apply_serialized-twin : (a x : VesselCall) → AreTwins a x → apply_serialized x.get a ≡ x
apply_serialized-twin a x (p, q) = λ i. record { id = p i; created_at = q i; get = x.get }

pub at_row-twin :
    (i : ℕ) (f : VesselCall → VesselCall) (v : VesselCall)
    → AreTwins (f v) v
    → AreTwins (at_row i f v) v
unfolding at_row
at_row-twin i f v h = elim (Bool-cases (v.id == i)) [
  | inl same ↦ rw same h
  | inr other ↦ rw other (refl, refl)
]
