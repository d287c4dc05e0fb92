-- ===== src/Identity/Survivorship.antt =====
-- apps/api/services/identity/survivorship.py: which of two records survives a merge, and the value
-- of each field. Provenance and rule names are data; labels for display are left out.
pub mod Choice
use marine_time_motion_platf.Prelude.{
  ℕ, ◌+◌, Bool, true, false, ◌&&◌, ◌||◌, not, List, [], ◌∷◌, map, any, leb, ◌==◌, if◌then◌else◌,
  Option, none, some,
}
use marine_time_motion_platf.Prelude.Int.{ℤ, pos, ◌-ℤ◌, leb_ℤ}
use marine_time_motion_platf.Prelude.Text.{Text, ◌=ᵗ◌, non_empty, strip, ends_with}
use marine_time_motion_platf.Identity.Record.{
  Value, null, str, num, bool, Column, VesselCall, vessel_name, imo_number, vcn, vessel_type,
  vessel_size_teu, flag, last_port_of_call, next_port_of_call, port_of_lading, port_of_discharge,
  reason_for_visit, cargo_type, commodity, quantity_value, quantity_unit, grt, loa_value, dwt,
  forward_draft_value, aft_draft_value, call_sign, text_or_empty,
}

pub data Rule : Type 0 where
  text_clean first_non_null max_numeric : Rule

abbrev pub comparable_fields : List (Column × Rule)
comparable_fields =
    (vessel_name, text_clean)
    ∷ (imo_number, first_non_null)
    ∷ (vcn, first_non_null)
    ∷ (vessel_type, first_non_null)
    ∷ (vessel_size_teu, max_numeric)
    ∷ (flag, first_non_null)
    ∷ (last_port_of_call, first_non_null)
    ∷ (next_port_of_call, first_non_null)
    ∷ (port_of_lading, first_non_null)
    ∷ (port_of_discharge, first_non_null)
    ∷ (reason_for_visit, first_non_null)
    ∷ (cargo_type, first_non_null)
    ∷ (commodity, first_non_null)
    ∷ (quantity_value, max_numeric)
    ∷ (quantity_unit, first_non_null)
    ∷ (grt, max_numeric)
    ∷ (loa_value, max_numeric)
    ∷ (dwt, max_numeric)
    ∷ (forward_draft_value, max_numeric)
    ∷ (aft_draft_value, max_numeric)
    ∷ (call_sign, first_non_null)
    ∷ []

-- `val is not None and val != ""`
abbrev pub is_given : Value → Bool
is_given null = false
is_given (str t) = non_empty t
is_given (num n) = true
is_given (bool b) = true

unfoldable pub completeness : VesselCall → List (Column × Rule) → ℕ
completeness v [] = 0
completeness v ((c, rule) ∷ fields) = (if is_given (v.get c) then 1 else 0) + completeness v fields

-- `ch in text`
abbrev pub has_char : ℕ → Text → Bool
has_char c t = any (λ x. x == c) t

-- The completeness of a record, less 2 if its name holds a hyphen or a full stop.
unfoldable pub survivor_score : VesselCall → ℤ
unfolding completeness
survivor_score v =
    let name = text_or_empty (v.get vessel_name) in
    let score = pos (completeness v comparable_fields) in
    if has_char b'-' name || has_char b'.' name then score -ℤ pos 2 else score

-- The survivor and the record that is merged into it; the first record survives a tie.
unfoldable pub determine_survivor_record : VesselCall → VesselCall → VesselCall × VesselCall
determine_survivor_record v1 v2 =
    if leb_ℤ (survivor_score v2) (survivor_score v1) then (v1, v2) else (v2, v1)

pub data RuleApplied : Type 0 where
  both_null val2_is_null val1_is_null unanimous_agreement : RuleApplied
  clean_text_normalisation largest_number source_priority_recency : RuleApplied

pub data Provenance : Type 0 where
  no_record both_records : Provenance
  of_record : ℕ → Provenance

pub record Resolution : Type 0 where
  pub winner_value : Value
  pub winning_record_id : ℕ
  pub rule_applied : RuleApplied
  pub provenance : Provenance

-- `==` on column values.
unfoldable pub value_eq : Value → Value → Bool
value_eq null null = true
value_eq (str s) (str t) = s =ᵗ t
value_eq (num m) (num n) = m == n
value_eq (bool true) (bool b) = b
value_eq (bool false) (bool b) = not b
value_eq _ _ = false

-- A text that holds a hyphen or ends in a full stop.
abbrev pub is_unclean : Text → Bool
is_unclean s = has_char b'-' s || ends_with b'.' s

abbrev pub value_is_null : Value → Bool
value_is_null null = true
value_is_null (str t) = false
value_is_null (num n) = false
value_is_null (bool b) = false

-- The winner of two values, with the record that it comes from.
abbrev wins : Value → ℕ → RuleApplied → Resolution
wins v id rule = record {
  winner_value = v;
  winning_record_id = id;
  rule_applied = rule;
  provenance = of_record id;
}

-- `text_clean`, on the stripped texts of a text column.
resolve_text : Value → Value → ℕ → ℕ → Resolution
resolve_text val1 val2 id1 id2 =
    if is_unclean (strip (text_or_empty val1)) && not (is_unclean (strip (text_or_empty val2)))
    then wins val2 id2 clean_text_normalisation
    else wins val1 id1 clean_text_normalisation

-- `max_numeric`: a value that is no number is left to the default.
resolve_number : Value → Value → ℕ → ℕ → Resolution
resolve_number (num n1) (num n2) id1 id2 =
    if leb n2 n1 then wins (num n1) id1 largest_number else wins (num n2) id2 largest_number
resolve_number val1 val2 id1 id2 = wins val1 id1 source_priority_recency

resolve_both : Rule → Value → Value → ℕ → ℕ → Resolution
resolve_both text_clean val1 val2 id1 id2 = resolve_text val1 val2 id1 id2
resolve_both max_numeric val1 val2 id1 id2 = resolve_number val1 val2 id1 id2
resolve_both first_non_null val1 val2 id1 id2 = wins val1 id1 source_priority_recency

unfoldable pub resolve_field : Rule → Value → Value → ℕ → ℕ → Resolution
unfolding resolve_both resolve_text resolve_number
resolve_field rule val1 val2 id1 id2 =
    if value_is_null val1 && value_is_null val2
    then record {
      winner_value = null;
      winning_record_id = id1;
      rule_applied = both_null;
      provenance = no_record;
    }
    else if not (value_is_null val1) && value_is_null val2
    then wins val1 id1 val2_is_null
    else if value_is_null val1 && not (value_is_null val2)
    then wins val2 id2 val1_is_null
    else if value_eq val1 val2
    then record {
      winner_value = val1;
      winning_record_id = id1;
      rule_applied = unanimous_agreement;
      provenance = both_records;
    }
    else resolve_both rule val1 val2 id1 id2

pub record FieldComparison : Type 0 where
  pub field : Column
  pub record_1_value : Value
  pub record_2_value : Value
  pub resolution : Resolution

pub record Preview : Type 0 where
  pub survivor_id : ℕ
  pub merged_id : ℕ
  pub survivor_vcn : Value
  pub merged_vcn : Value
  pub field_comparisons : List FieldComparison

compare_field : VesselCall → VesselCall → Column × Rule → FieldComparison
compare_field v1 v2 (c, rule) = record {
  field = c;
  record_1_value = v1.get c;
  record_2_value = v2.get c;
  resolution = resolve_field rule (v1.get c) (v2.get c) v1.id v2.id;
}

unfoldable pub generate_preview : VesselCall → VesselCall → Preview
unfolding compare_field
generate_preview v1 v2 =
    let (survivor, merged) = determine_survivor_record v1 v2 in
    record {
      survivor_id = survivor.id;
      merged_id = merged.id;
      survivor_vcn = survivor.get vcn;
      merged_vcn = merged.get vcn;
      field_comparisons = map (compare_field v1 v2) comparable_fields;
    }

-- `consolidated_preview`: the value of each field, in the order of the fields.
unfoldable pub consolidated_preview : Preview → List (Column × Value)
consolidated_preview p = map (λ f. (f.field, f.resolution.winner_value)) p.field_comparisons
