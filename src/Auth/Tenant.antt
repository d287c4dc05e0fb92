-- ===== src/Auth/Tenant.antt =====
-- apps/api/auth/tenant.py.
use marine_time_motion_platf.Prelude.{
  ◌≡◌, ◌≢◌, ◌↔◌, Bool, ◌&&◌, ◌||◌, not, [], Option, none, some, arith, if◌then◌else◌,
}
use marine_time_motion_platf.Prelude.Text.{
  Text, text, ◌=ᵗ◌, =ᵗ_iff, non_empty, non_empty_iff, strip,
}
use marine_time_motion_platf.Auth.Scope.{is_wildcard}
use marine_time_motion_platf.Auth.Principal.{UserPrincipal, Settings}

pub data Denial : Type 0 where
  no_concrete_tenant tenant_mismatch : Denial

pub data Resolved : Type 0 where
  tenant : Text → Resolved
  denied : Denial → Resolved

abbrev pub is_development : Settings → Bool
is_development s = s.environment =ᵗ text "development"

-- The tenant that the scope names, where a wildcard stands for the tenant of local development.
unfoldable pub bound_tenant : Settings → UserPrincipal → Text
bound_tenant s p =
    let tenant_id = strip (p.data_scope).tenant_id in
    if is_wildcard tenant_id && is_development s && p.is_synthetic
    then s.development_tenant_id
    else tenant_id

unfoldable pub resolve_principal_tenant : Settings → UserPrincipal → Option Text → Resolved
resolve_principal_tenant s p requested =
    let tenant_id = bound_tenant s p in
    if not (non_empty tenant_id) || is_wildcard tenant_id
    then denied no_concrete_tenant
    else elim requested [
      | none ↦ tenant tenant_id
      | some r ↦ if r =ᵗ tenant_id then tenant tenant_id else denied tenant_mismatch
    ]

abbrev pub IsConcrete : Text → Type 0
IsConcrete t = (t ≢ []) × (t ≢ text "*")

abbrev pub IsRequest : Option Text → Text → Type 0
IsRequest none t = Unit
IsRequest (some r) t = r ≡ t

-- A tenant is returned exactly if it is the tenant of the principal's own scope, is neither empty nor
-- the wildcard, and is the requested one where one is requested.
pub resolve_principal_tenant_iff :
    (s : Settings) (p : UserPrincipal) (requested : Option Text) (t : Text)
    → (resolve_principal_tenant s p requested ≡ tenant t)
      ↔ ((bound_tenant s p ≡ t) × IsConcrete t × IsRequest requested t)
unfolding resolve_principal_tenant
resolve_principal_tenant_iff s p none t =
    ground (arith, =ᵗ_iff (bound_tenant s p) (text "*"), non_empty_iff (bound_tenant s p))
resolve_principal_tenant_iff s p (some r) t = ground (
  arith,
  =ᵗ_iff (bound_tenant s p) (text "*"),
  =ᵗ_iff r (bound_tenant s p),
  non_empty_iff (bound_tenant s p),
)
