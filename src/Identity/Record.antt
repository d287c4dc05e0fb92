-- ===== src/Identity/Record.antt =====
-- apps/api/models/canonical.py, `VesselCall`: the columns of a vessel call. Quantities are in
-- thousandths of their unit. The column `updated_at`, which the database writes, is left out.
use marine_time_motion_platf.Prelude.{
  ℕ, zero, suc, ◌<◌, ◌≡◌, refl, sym, ap, ◌∙◌, Bool, false, not, ◌==◌, List, [], ◌∷◌, arith, length,
  if◌then◌else◌,
}
use marine_time_motion_platf.Prelude.Slices.{get_or}
use marine_time_motion_platf.Prelude.Text.{Text, non_empty}

pub data Value : Type 0 where
  null : Value
  str : Text → Value
  num : ℕ → Value
  bool : Bool → Value

-- All columns but `id` and `created_at`.
pub data Column : Type 0 where
  license_number vessel_name imo_number vcn vessel_type vessel_size_teu flag : Column
  last_port_of_call next_port_of_call port_of_lading port_of_discharge : Column
  reason_for_visit cargo_type commodity quantity_value quantity_unit grt loa_value loa_unit : Column
  dwt forward_draft_value forward_draft_unit aft_draft_value aft_draft_unit call_sign : Column
  tenant_id port_id terminal_id is_merged merged_into_id : Column
  created_by updated_by source_lineage_id version : Column

pub record VesselCall : Type 0 where
  pub id : ℕ
  pub created_at : ℕ
  pub get : Column → Value

-- The place of a column in the table, by which columns are compared.
abbrev pub column_index : Column → ℕ
column_index license_number = 0
column_index vessel_name = 1
column_index imo_number = 2
column_index vcn = 3
column_index vessel_type = 4
column_index vessel_size_teu = 5
column_index flag = 6
column_index last_port_of_call = 7
column_index next_port_of_call = 8
column_index port_of_lading = 9
column_index port_of_discharge = 10
column_index reason_for_visit = 11
column_index cargo_type = 12
column_index commodity = 13
column_index quantity_value = 14
column_index quantity_unit = 15
column_index grt = 16
column_index loa_value = 17
column_index loa_unit = 18
column_index dwt = 19
column_index forward_draft_value = 20
column_index forward_draft_unit = 21
column_index aft_draft_value = 22
column_index aft_draft_unit = 23
column_index call_sign = 24
column_index tenant_id = 25
column_index port_id = 26
column_index terminal_id = 27
column_index is_merged = 28
column_index merged_into_id = 29
column_index created_by = 30
column_index updated_by = 31
column_index source_lineage_id = 32
column_index version = 33

columns : List Column
columns =
    license_number ∷ vessel_name ∷ imo_number ∷ vcn ∷ vessel_type ∷ vessel_size_teu ∷ flag
    ∷ last_port_of_call ∷ next_port_of_call ∷ port_of_lading ∷ port_of_discharge ∷ reason_for_visit
    ∷ cargo_type ∷ commodity ∷ quantity_value ∷ quantity_unit ∷ grt ∷ loa_value ∷ loa_unit ∷ dwt
    ∷ forward_draft_value ∷ forward_draft_unit ∷ aft_draft_value ∷ aft_draft_unit ∷ call_sign
    ∷ tenant_id ∷ port_id ∷ terminal_id ∷ is_merged ∷ merged_into_id ∷ created_by ∷ updated_by
    ∷ source_lineage_id ∷ version ∷ []

column_at : (c : Column) → get_or columns (column_index c) c ≡ c
unfolding columns
column_at license_number = refl
column_at _ = refl

get_or_bounded :
    (xs : List Column) (i : ℕ) (a b : Column) → i < length xs → get_or xs i a ≡ get_or xs i b
get_or_bounded [] i a b h = elim h [ ]
get_or_bounded (x ∷ xs) zero a b h = refl
get_or_bounded (x ∷ xs) (suc i) a b h = get_or_bounded xs i a b (omega arith)

column_index-lt : (c : Column) → column_index c < length columns
unfolding columns
column_index-lt license_number = omega arith
column_index-lt _ = omega arith

-- Columns are the same if they have one place.
pub column_index-injective : (c d : Column) → column_index c ≡ column_index d → c ≡ d
column_index-injective c d e =
    sym (column_at c)
    ∙ get_or_bounded columns (column_index c) c d (column_index-lt c)
    ∙ ap (λ (i : ℕ). get_or columns i d) e
    ∙ column_at d

-- `setattr(call, column, value)`
unfoldable pub set_column : Column → Value → VesselCall → VesselCall
set_column c v call = record call {
  get = λ d. if column_index c == column_index d then v else call.get d;
}

-- `value or ""` at a column of type `String`.
abbrev pub text_or_empty : Value → Text
text_or_empty (str t) = t
text_or_empty null = []
text_or_empty (num n) = []
text_or_empty (bool b) = []

-- `value or 0` at a column of type `Integer` or `Float`.
abbrev pub number_or_zero : Value → ℕ
number_or_zero (num n) = n
number_or_zero null = 0
number_or_zero (str t) = 0
number_or_zero (bool b) = 0

-- `bool(value)`
abbrev pub is_truthy : Value → Bool
is_truthy null = false
is_truthy (str t) = non_empty t
is_truthy (num n) = not (n == 0)
is_truthy (bool b) = b

-- `a or b`
infixr 30 ◌or_else◌
abbrev pub ◌or_else◌ : Value → Value → Value
a or_else b = if is_truthy a then a else b
