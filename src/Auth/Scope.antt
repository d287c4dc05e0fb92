-- ===== src/Auth/Scope.antt =====
-- apps/api/auth/scope.py: the boundaries of a principal, and the query builder that enforces them.
-- A table is a list of rows, and a filter of a query keeps the rows that satisfy it.
pub mod Enforced
use marine_time_motion_platf.Prelude.{
  Bool, true, false, ◌&&◌, ◌||◌, not, List, [], ◌∷◌, all, filter, Option, none, some, if◌then◌else◌,
}
use marine_time_motion_platf.Prelude.Text.{Text, text, ◌=ᵗ◌, non_empty}

pub record DataScope : Type 0 where
  pub tenant_id : Text
  pub port_id : Option Text
  pub terminal_id : Option Text

abbrev pub is_wildcard : Text → Bool
is_wildcard t = t =ᵗ text "*"

-- `a == b` where either may be `None`.
abbrev pub same_option : Option Text → Option Text → Bool
same_option none none = true
same_option none (some b) = false
same_option (some a) none = false
same_option (some a) (some b) = a =ᵗ b

unfoldable pub allows_tenant : DataScope → Text → Bool
allows_tenant s tenant = if is_wildcard s.tenant_id then true else s.tenant_id =ᵗ tenant

-- The test that `allows_port` and `allows_terminal` share.
abbrev allows_place : Option Text → Option Text → Bool
allows_place none place = true
allows_place (some p) place = if is_wildcard p then true else same_option (some p) place

unfoldable pub allows_port : DataScope → Option Text → Bool
allows_port s port = allows_place s.port_id port

unfoldable pub allows_terminal : DataScope → Option Text → Bool
allows_terminal s terminal = allows_place s.terminal_id terminal

-- A row of a table, with the columns that the builder looks at.
pub record Row (A : Type 0) : Type 0 where
  pub tenant_id : Text
  pub port_id : Option Text
  pub terminal_id : Option Text
  pub content : A

-- Which of the columns the model has, `hasattr(model, …)`.
pub record Model : Type 0 where
  pub has_tenant_id : Bool
  pub has_port_id : Bool
  pub has_terminal_id : Bool

-- `column == value OR column IS NULL`
abbrev pub same_or_null : Option Text → Text → Bool
same_or_null none value = true
same_or_null (some place) value = place =ᵗ value

-- The filter on the port or the terminal: none if the scope's value is missing, empty or "*".
abbrev narrow :
    {A : Type 0} → Bool → Option Text → (Row A → Option Text) → List (Row A) → List (Row A)
narrow has none place rows = rows
narrow has (some value) place rows =
    if has && (non_empty value && not (is_wildcard value))
    then filter (λ r. same_or_null (place r) value) rows
    else rows

module _ {A : Type 0} where
  unfoldable pub build : Model → DataScope → List (Row A → Bool) → List (Row A) → List (Row A)
  build model scope filters table =
      let by_tenant =
        if model.has_tenant_id && not (is_wildcard scope.tenant_id)
        then filter (λ r. r.tenant_id =ᵗ scope.tenant_id) table
        else table in
      let by_port = narrow model.has_port_id scope.port_id (λ r. r.port_id) by_tenant in
      let by_terminal =
        narrow model.has_terminal_id scope.terminal_id (λ r. r.terminal_id) by_port in
      filter (λ r. all (λ f. f r) filters) by_terminal
