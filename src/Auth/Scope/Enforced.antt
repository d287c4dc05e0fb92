-- ===== src/Auth/Scope/Enforced.antt =====
-- The query builder returns exactly the rows that the scope allows or that have no place to bound.
use marine_time_motion_platf.Prelude.{
  ◌≡◌, refl, sym, ap, ◌∙◌, ◌≢◌, Bool, true, false, ◌&&◌, ◌||◌, not, List, [], ◌∷◌, all, filter,
  filter-filter, filter-true, filter_ext, Option, none, some, if◌then◌else◌, arith, Bool-cases, inl,
  inr,
}
use marine_time_motion_platf.Prelude.Text.{Text, ◌=ᵗ◌, =ᵗ_comm, non_empty}
use marine_time_motion_platf.Auth.Scope.{
  DataScope, is_wildcard, allows_tenant, allows_port, allows_terminal, allows_place, Row, Model,
  same_or_null, narrow, build,
}

-- A row with NULL for its port (or terminal).
abbrev pub has_none : Option Text → Bool
has_none none = true
has_none (some place) = false

-- The bound that one column puts on a place.
abbrev within : Bool → Option Text → Option Text → Bool
within has bound place = not has || (has_none place || allows_place bound place)

within_bound :
    (value : Text) (place : Option Text)
    → is_wildcard value ≡ false
    → same_or_null place value ≡ within true (some value) place
within_bound value none h = refl
within_bound value (some place) h = rw h (=ᵗ_comm place value)

within_open :
    (has : Bool) (value : Text) (place : Option Text)
    → value ≢ []
    → (has && (non_empty value && not (is_wildcard value))) ≡ false
    → within has (some value) place ≡ true
within_open false value place ne h = refl
within_open true [] place ne h = absurd (ne refl)
within_open true (c ∷ cs) place ne h = ground arith

module _ {A : Type 0} where
  -- What a query admits: a row that the methods of `DataScope` allow, or that has no port (or
  -- terminal), which those methods do not allow to a bounded scope; a column that the model lacks is
  -- no bound.
  abbrev pub admits : Model → DataScope → Row A → Bool
  admits model scope r =
      (not model.has_tenant_id || allows_tenant scope r.tenant_id)
      && (not model.has_port_id || (has_none r.port_id || allows_port scope r.port_id))
      && (not model.has_terminal_id
          || (has_none r.terminal_id || allows_terminal scope r.terminal_id))

  narrow-filter :
      (has : Bool) (bound : Option Text) (place : Row A → Option Text) (rows : List (Row A))
      → bound ≢ some []
      → narrow has bound place rows ≡ filter (λ r. within has bound (place r)) rows
  narrow-filter has none place rows ne = sym (filter-true _ rows (λ r. ground arith))
  narrow-filter has (some value) place rows ne =
      elim (Bool-cases (has && (non_empty value && not (is_wildcard value)))) [
        | inl bound ↦
            rw bound (filter_ext _ _ rows (λ r. ground (arith, within_bound value (place r))))
        | inr open_to_all ↦ rw open_to_all (
            sym (
              filter-true _ rows
                (λ r. within_open has value (place r) (λ e. ne (ap some e)) open_to_all)))
      ]

  by_tenant-filter :
      (has : Bool) (scope : DataScope) (rows : List (Row A))
      → (if has && not (is_wildcard scope.tenant_id)
          then filter (λ r. r.tenant_id =ᵗ scope.tenant_id) rows
          else rows)
        ≡ filter (λ r. not has || allows_tenant scope r.tenant_id) rows
  unfolding allows_tenant
  by_tenant-filter has scope rows = elim (Bool-cases (has && not (is_wildcard scope.tenant_id))) [
    | inl bound ↦
        rw bound (filter_ext _ _ rows (λ r. ground (arith, =ᵗ_comm r.tenant_id scope.tenant_id)))
    | inr open_to_all ↦ rw open_to_all (sym (filter-true _ rows (λ r. ground arith)))
  ]

  -- A query returns exactly the rows of the table that satisfy all filters, whose tenant the scope
  -- allows, and whose port and terminal the scope allows or are missing (NULL), in the order of the
  -- table; a scope whose port or terminal is the empty text is left out.
  pub build-admits :
      (model : Model) (scope : DataScope) (filters : List (Row A → Bool)) (table : List (Row A))
      → scope.port_id ≢ some []
      → scope.terminal_id ≢ some []
      → build model scope filters table
        ≡ filter (λ r. admits model scope r && all (λ f. f r) filters) table
  unfolding build allows_port allows_terminal
  build-admits model scope filters table no_port no_terminal =
      let p1 = λ (r : Row A). not model.has_tenant_id || allows_tenant scope r.tenant_id in
      let p2 = λ (r : Row A). within model.has_port_id scope.port_id r.port_id in
      let p3 = λ (r : Row A). within model.has_terminal_id scope.terminal_id r.terminal_id in
      let q = λ (r : Row A). all (λ f. f r) filters in
      ap (filter q) (
        narrow-filter model.has_terminal_id scope.terminal_id (λ r. r.terminal_id) _ no_terminal
        ∙ ap (filter p3) (
            narrow-filter model.has_port_id scope.port_id (λ r. r.port_id) _ no_port
            ∙ ap (filter p2) (by_tenant-filter model.has_tenant_id scope table)))
      ∙ ap (λ t. filter q (filter p3 t)) (filter-filter p1 p2 table)
      ∙ ap (filter q) (filter-filter (λ r. p1 r && p2 r) p3 table)
      ∙ filter-filter (λ r. (p1 r && p2 r) && p3 r) q table
      ∙ filter_ext _ _ table (λ r. ground arith)
