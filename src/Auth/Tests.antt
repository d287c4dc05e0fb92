-- ===== src/Auth/Tests.antt =====
-- One login, its requests, and the rows that its scope opens.
use marine_time_motion_platf.Prelude.{
  ℕ, ◌≤◌, ◌+◌, ◌≡◌, refl, Bool, true, false, ◌&&◌, inl, List, [], ◌∷◌, all, filter, Option, none,
  some, arith,
}
use marine_time_motion_platf.Prelude.Text.{Text, text, ◌=ᵗ◌, strip, lstrip, rstrip, is_space}
use marine_time_motion_platf.Auth.Scope.{DataScope, Row, Model, build}
use marine_time_motion_platf.Auth.Scope.Enforced.{admits, build-admits}
use marine_time_motion_platf.Auth.Principal.{UserPrincipal, Settings, has_permission}
use marine_time_motion_platf.Auth.Tenant.{tenant, resolve_principal_tenant, bound_tenant}
use marine_time_motion_platf.Auth.Session.{
  SessionRecord, minutes, Identity, Claims, create_access_token, create_user_session,
  revoke_session, is_session_active,
}
use marine_time_motion_platf.Auth.Session.Lifetime.{refused_stays_refused, active-le-expiry}
use marine_time_motion_platf.Auth.Session.Kept.{here, recorded}
use marine_time_motion_platf.Auth.Gate.{
  Request, Log, granted, refused, scope_invalid, tenant_of, require, token_of, principal_of,
  get_current_principal, session_check, check_permission,
}
use marine_time_motion_platf.Auth.Gate.Access.{IsPermitted, IsSameIdentity}
use marine_time_motion_platf.Auth.Gate.Admission.{
  IsAuthentic, require-IsAuthentic, create_user_session-require,
}

abbrev settings : Settings
settings = record {
  environment = text "production";
  development_tenant_id = text "tenant-synthetic-01";
  access_token_expire_minutes = 60;
  session_idle_timeout_minutes = 30;
}

abbrev pilot : Identity
pilot = record {
  user_id = text "u1";
  email = text "pilot@port";
  roles = text "Viewer" ∷ [];
  permissions = text "view" ∷ [];
  data_scope = record {
    tenant_id = some (some (text "t1"));
    port_id = some (text "p1");
    terminal_id = none;
  };
  is_service_account = false;
}

abbrev claims : Claims
unfolding create_access_token
claims = (create_access_token settings 0 (text "j1") pilot).0

abbrev sessions : List SessionRecord
sessions = recorded settings 0 0 (text "j1") pilot ∷ []

login : create_user_session settings 0 0 (text "j1") pilot [] ≡ some (sessions, claims)
unfolding create_user_session create_access_token
login = refl

-- A codec for which a text stands for the claims above, until they expire.
abbrev decode : ℕ → Text → Option Claims
decode now t = some claims

abbrev scope : DataScope
scope = record { tenant_id = text "t1"; port_id = some (text "p1"); terminal_id = none }

abbrev columns : Model
columns = record { has_tenant_id = true; has_port_id = true; has_terminal_id = false }

abbrev row : Text → Option Text → ℕ → Row ℕ
row t p n = record { tenant_id = t; port_id = p; terminal_id = none; content = n }

abbrev table : List (Row ℕ)
table =
    row (text "t1") (some (text "p1")) 1
    ∷ row (text "t2") (some (text "p1")) 2
    ∷ row (text "t1") none 3
    ∷ []

build-admits_example :
    build columns scope [] table
    ≡ filter (λ r. admits columns scope r && all {A = Row ℕ → Bool} (λ f. f r) []) table
build-admits_example = build-admits columns scope [] table (λ e. ground arith) (λ e. ground arith)

two_rows :
    build columns scope [] table
    ≡ row (text "t1") (some (text "p1")) 1 ∷ row (text "t1") none 3 ∷ []
unfolding build ◌=ᵗ◌
two_rows = refl

abbrev principal : UserPrincipal
principal = record {
  user_id = text "u1";
  email = text "pilot@port";
  roles = text "Viewer" ∷ [];
  permissions = text "view" ∷ [];
  data_scope = scope;
  is_service_account = false;
  is_synthetic = true;
  session_jti = none;
}

resolves : resolve_principal_tenant settings principal none ≡ tenant (text "t1")
unfolding resolve_principal_tenant bound_tenant strip lstrip rstrip is_space ◌=ᵗ◌
resolves = refl

idle_too_long : (is_session_active settings 1800000001 (text "j1") sessions).0 ≡ false
unfolding is_session_active ◌=ᵗ◌
idle_too_long = refl

refused_stays_refused_example :
    (is_session_active settings 7
      (text "j1")
      (is_session_active settings 1800000001 (text "j1") sessions).1).0
    ≡ false
refused_stays_refused_example =
    refused_stays_refused settings 1800000001 7 (text "j1") sessions
      (is_session_active settings 1800000001 (text "j1") sessions).1 idle_too_long here

logged_out : (revoke_session (text "j1") sessions).0 ≡ true
unfolding revoke_session ◌=ᵗ◌
logged_out = refl

still_active : (is_session_active settings 7 (text "j1") sessions).0 ≡ true
unfolding is_session_active ◌=ᵗ◌
still_active = refl

active-le-expiry_example : 7 ≤ 0 + minutes 60
active-le-expiry_example =
    active-le-expiry settings 0 0 7 (text "j1") pilot [] sessions sessions claims login here
      still_active

abbrev request : Request
request = record {
  bearer = some (text "signed");
  access_cookie = none;
  path = text "/calls";
  correlation_id = text "c1";
}

abbrev log : Log
log = record { sessions = sessions; audit = [] }

-- The principal of the claims.
abbrev viewer : UserPrincipal
viewer = record principal { session_jti = some (text "j1") }

admitted : (require decode (text "view") none settings 7 request log).0 ≡ granted viewer
unfolding require get_current_principal token_of session_check is_session_active check_permission
    has_permission principal_of tenant_of ◌=ᵗ◌ claims
admitted = refl

-- A token whose scope has a null for the tenant is refused after the check of its session.
scope_is_invalid :
    (require
      (λ now t. some (record claims {
        data_scope = some (record { tenant_id = some none; port_id = none; terminal_id = none });
      }))
      (text "view")
      none
      settings
      7
      request
      log).0
    ≡ refused scope_invalid
unfolding require get_current_principal token_of session_check is_session_active check_permission
    has_permission principal_of tenant_of ◌=ᵗ◌ claims
scope_is_invalid = refl

require-IsAuthentic_example :
    IsAuthentic decode settings 7 request sessions viewer
    × IsPermitted (text "view") viewer
    × ((require decode (text "view") none settings 7 request log).1.audit ≡ [])
require-IsAuthentic_example =
    require-IsAuthentic decode (text "view") none settings 7 request log viewer admitted

create_user_session-require_example :
    (p : UserPrincipal) × ((require decode (text "view") none settings 7 request log).0 ≡ granted p)
    × IsSameIdentity pilot p
unfolding token_of claims
create_user_session-require_example =
    create_user_session-require decode settings 0 0 7 (text "j1") pilot
      (record { sessions = []; audit = [] }) sessions claims (text "view") none request login
      (λ t since h. refl) (λ e. ground arith) (λ e. ground arith) (λ e. ground arith) (omega arith)
      (omega arith) (omega arith) (inl refl)
