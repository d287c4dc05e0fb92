-- ===== src/Auth/Gate.antt =====
-- apps/api/auth/dependencies.py: from a request to its principal, and the check of a permission.
-- Verifying and decoding a token is a library's, the parameter `decode_token`; requests carry what the
-- code reads of them.
pub mod Access
pub mod Admission
use marine_time_motion_platf.Prelude.{
  ℕ, Bool, true, false, ◌&&◌, not, List, [], ◌∷◌, ◌++◌, if◌then◌else◌, Option, none, some,
}
use mathlib.Core.Option.{get_or}
use marine_time_motion_platf.Prelude.Text.{Text, text, ◌=ᵗ◌, non_empty}
use marine_time_motion_platf.Auth.Scope.{DataScope}
use marine_time_motion_platf.Auth.Principal.{UserPrincipal, Settings, has_permission}
use marine_time_motion_platf.Auth.Tenant.{is_development}
use marine_time_motion_platf.Auth.Session.{SessionRecord, ScopeClaims, Claims, is_session_active}

pub record Request : Type 0 where
  pub bearer : Option Text
  pub access_cookie : Option Text
  pub path : Text
  pub correlation_id : Text

pub data Refusal : Type 0 where
  unauthorized invalid_token session_expired : Refusal
  -- `DataScope` raises on a tenant that is null, and nothing catches it.
  scope_invalid : Refusal
  forbidden : (required : Text) (roles : List Text) → Refusal

pub data Outcome (A : Type 0) : Type 0 where
  granted : A → Outcome A
  refused : Refusal → Outcome A

-- A row of the audit log of a failed authorization.
pub record FailedAuth : Type 0 where
  pub actor_id : Text
  pub actor_email : Text
  pub actor_role : List Text
  pub resource_type : Text
  pub resource_id : Text
  pub correlation_id : Text
  pub required_permission : Text
  pub principal_permissions : List Text

-- The two tables that a request can write to.
pub record Log : Type 0 where
  pub sessions : List SessionRecord
  pub audit : List FailedAuth

-- The token: the bearer's if there is one, else the cookie's; an empty text is none.
unfoldable pub token_of : Request → Text
token_of r = elim r.bearer [
  | some (c ∷ cs) ↦ c ∷ cs
  | some [] ↦ get_or r.access_cookie []
  | none ↦ get_or r.access_cookie []
]

abbrev all_actions : List Text
all_actions =
    text "view"
    ∷ text "create"
    ∷ text "edit"
    ∷ text "approve"
    ∷ text "reject"
    ∷ text "merge"
    ∷ text "unmerge"
    ∷ text "recalculate"
    ∷ text "publish"
    ∷ text "export"
    ∷ text "configure"
    ∷ text "administer"
    ∷ text "audit"
    ∷ []

-- The administrator of local development.
unfoldable pub development_principal : Settings → UserPrincipal
development_principal s = record {
  user_id = text "dev-user-admin";
  email = text "admin@port.local";
  roles = text "Platform Administrator" ∷ [];
  permissions = all_actions;
  data_scope = record {
    tenant_id = s.development_tenant_id;
    port_id = some (text "*");
    terminal_id = some (text "*");
  };
  is_service_account = false;
  is_synthetic = true;
  session_jti = none;
}

abbrev no_scope : ScopeClaims
no_scope = record { tenant_id = none; port_id = none; terminal_id = none }

-- `scope_data.get("tenant_id", "default-tenant")`, if it is a text.
unfoldable pub tenant_of : Option (Option Text) → Option Text
tenant_of none = some (text "default-tenant")
tenant_of (some none) = none
tenant_of (some (some t)) = some t

-- The principal of the claims, unless its scope is refused.
unfoldable pub principal_of : Claims → Option UserPrincipal
principal_of c =
    let scope = get_or c.data_scope no_scope in
    elim (tenant_of scope.tenant_id) [
      | none ↦ none
      | some tenant ↦ some (record {
        user_id = get_or c.sub [];
        email = get_or c.email [];
        roles = get_or c.roles [];
        permissions = get_or c.permissions [];
        data_scope = record {
          tenant_id = tenant;
          port_id = scope.port_id;
          terminal_id = scope.terminal_id;
        };
        is_service_account = get_or c.is_service_account false;
        is_synthetic = get_or c.is_synthetic true;
        session_jti = c.jti;
      })
    ]

abbrev admit : Option UserPrincipal → Outcome UserPrincipal
admit none = refused scope_invalid
admit (some p) = granted p

-- `jti and not is_session_active(db, jti)`, with what the look-up writes.
unfoldable pub session_check :
    Settings → ℕ → Option Text → List SessionRecord → Bool × List SessionRecord
session_check s now none db = (true, db)
session_check s now (some jti) db =
    if non_empty jti then is_session_active s now jti db else (true, db)

-- `PermissionDependency.__call__` on the principal that the request has.
unfoldable pub check_permission :
    (permission : Text) (resource : Option Text)
    → Request
    → UserPrincipal
    → List FailedAuth
    → Outcome UserPrincipal × List FailedAuth
check_permission permission resource request principal audit =
    if has_permission principal permission then (granted principal, audit) else (
      refused (forbidden permission principal.roles),
      audit
          ++ record {
            actor_id = principal.user_id;
            actor_email = principal.email;
            actor_role = principal.roles;
            resource_type = get_or resource (text "endpoint");
            resource_id = request.path;
            correlation_id = request.correlation_id;
            required_permission = permission;
            principal_permissions = principal.permissions;
          }
            ∷ [],
    )

module _ (decode_token : ℕ → Text → Option Claims) where
  unfoldable pub get_current_principal :
      Settings → ℕ → Request → List SessionRecord → Outcome UserPrincipal × List SessionRecord
  get_current_principal s now request db =
      let token = token_of request in
      if not (non_empty token)
      then (refused unauthorized, db)
      else if (token =ᵗ text "dev-token") && is_development s
      then (granted (development_principal s), db)
      else elim (decode_token now token) [
        | none ↦ (refused invalid_token, db)
        | some claims ↦
            let (active, db') = session_check s now claims.jti db in
            (if active then admit (principal_of claims) else refused session_expired, db')
      ]

  -- A route that is protected by `require(permission, resource)`.
  unfoldable pub require :
      (permission : Text) (resource : Option Text)
      → Settings
      → ℕ
      → Request
      → Log
      → Outcome UserPrincipal × Log
  require permission resource s now request log =
      let (who, sessions) = get_current_principal s now request log.sessions in
      elim who [
        | refused r ↦ (refused r, record log { sessions = sessions })
        | granted p ↦
            let (result, audit) = check_permission permission resource request p log.audit in
            (result, record { sessions = sessions; audit = audit })
      ]
