-- ===== src/Identity/Survivorship/Choice.antt =====
-- The survivor of two records and the winner of two values.
use marine_time_motion_platf.Prelude.{ℕ, ◌≡◌, ◌⊎◌, ◌↔◌, true, arith}
use Prim.Native.Nat.{max}
use marine_time_motion_platf.Prelude.Int.{◌≤ℤ◌}
use marine_time_motion_platf.Identity.Record.{Value, null, str, num, bool, VesselCall}
use marine_time_motion_platf.Identity.Survivorship.{
  Rule, max_numeric, text_clean, first_non_null, survivor_score, determine_survivor_record,
  resolve_field, Provenance, no_record, both_records, of_record, value_eq,
}

-- The two records are kept, the survivor first: its score is at least that of the other.
pub determine_survivor_record_lem :
    (v1 v2 : VesselCall)
    → let (survivor, merged) = determine_survivor_record v1 v2 in
      (survivor_score merged ≤ℤ survivor_score survivor)
      × (((survivor ≡ v1) × (merged ≡ v2)) ⊎ ((survivor ≡ v2) × (merged ≡ v1)))
unfolding determine_survivor_record
determine_survivor_record_lem v1 v2 = ground arith

-- Where the code says that a value comes from.
abbrev pub IsFrom : Provenance → Value → Value → ℕ → ℕ → Value → ℕ → Type 0
IsFrom no_record val1 val2 id1 id2 v id = (val1 ≡ null) × (val2 ≡ null) × (v ≡ null)
IsFrom both_records val1 val2 id1 id2 v id = (v ≡ val1) × (value_eq val1 val2 ≡ true) × (id ≡ id1)
IsFrom (of_record r) val1 val2 id1 id2 v id =
    (r ≡ id) × (((v ≡ val1) × (id ≡ id1)) ⊎ ((v ≡ val2) × (id ≡ id2)))

-- For every rule the winner is one of the two values, that of the record named as winning; the
-- provenance is true; and nothing is lost: the winner is null only if both values are.
pub resolve_field-IsFrom :
    (rule : Rule) (val1 val2 : Value) (id1 id2 : ℕ)
    → let r = resolve_field rule val1 val2 id1 id2 in
      IsFrom r.provenance val1 val2 id1 id2 r.winner_value r.winning_record_id
      × ((r.winner_value ≡ null) ↔ ((val1 ≡ null) × (val2 ≡ null)))
unfolding resolve_field
resolve_field-IsFrom rule null val2 id1 id2 = ground arith
resolve_field-IsFrom text_clean (str s) val2 id1 id2 = ground arith
resolve_field-IsFrom text_clean (num n) val2 id1 id2 = ground arith
resolve_field-IsFrom text_clean (bool b) val2 id1 id2 = ground arith
resolve_field-IsFrom max_numeric (str s) val2 id1 id2 = ground arith
resolve_field-IsFrom max_numeric (num n) val2 id1 id2 = ground arith
resolve_field-IsFrom max_numeric (bool b) val2 id1 id2 = ground arith
resolve_field-IsFrom first_non_null val1 val2 id1 id2 = ground arith

-- Of two different numbers under `max_numeric` the larger wins.
pub resolve_field_largest :
    (m n id1 id2 : ℕ)
    → (resolve_field max_numeric (num m) (num n) id1 id2).winner_value ≡ num (max m n)
unfolding resolve_field value_eq
resolve_field_largest m n id1 id2 = ground arith
