-- ===== src/Auth/Principal.antt =====
-- apps/api/auth/principal.py, with the settings of apps/api/core/config.py that the checks read.
use marine_time_motion_platf.Prelude.{ℕ, Bool, true, List, any, Option, if◌then◌else◌}
use marine_time_motion_platf.Prelude.Text.{Text, text, ◌=ᵗ◌}
use marine_time_motion_platf.Auth.Scope.{DataScope}

pub record UserPrincipal : Type 0 where
  pub user_id : Text
  pub email : Text
  pub roles : List Text
  pub permissions : List Text
  pub data_scope : DataScope
  pub is_service_account : Bool
  pub is_synthetic : Bool
  pub session_jti : Option Text

pub record Settings : Type 0 where
  pub environment : Text
  pub development_tenant_id : Text
  pub access_token_expire_minutes : ℕ
  pub session_idle_timeout_minutes : ℕ

-- `x in texts`
abbrev pub includes : Text → List Text → Bool
includes x texts = any (λ t. x =ᵗ t) texts

unfoldable pub has_role : UserPrincipal → Text → Bool
has_role p role_name = includes role_name p.roles

unfoldable pub has_permission : UserPrincipal → Text → Bool
has_permission p action =
    if includes (text "Platform Administrator") p.roles then true else includes action p.permissions
