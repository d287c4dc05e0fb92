-- ===== src/Auth/Gate/Access.antt =====
-- Identities, permissions and sessions of a principal, as the gate checks them.
use marine_time_motion_platf.Prelude.{
  ℕ, ◌≡◌, ◌↔◌, refl, subst, ◌≢◌, ◌⊎◌, inl, inr, true, none, ◌∷◌, List, [], Option, some,
  Option-cases, Bool-cases, arith,
}
use marine_time_motion_platf.Prelude.Members.{In}
use marine_time_motion_platf.Prelude.Text.{Text, text, ◌=ᵗ◌, =ᵗ_iff}
use marine_time_motion_platf.Auth.Principal.{UserPrincipal, Settings, includes, has_permission}
use marine_time_motion_platf.Auth.Session.{
  Claims, SessionRecord, session_of, Identity, create_access_token,
}
use marine_time_motion_platf.Auth.Session.Lifetime.{IsAlive, is_session_active_iff}
use marine_time_motion_platf.Auth.Gate.{tenant_of, no_scope, principal_of, session_check}
use mathlib.Core.Option.{get_or}

-- What a login promises: the principal of its claims is who logged in, of the tenant that it named, or
-- of the default one if it named none.
abbrev pub IsSameIdentity : Identity → UserPrincipal → Type 0
IsSameIdentity who p =
    (p.user_id ≡ who.user_id)
    × (p.roles ≡ who.roles)
    × (p.permissions ≡ who.permissions)
    × ((((who.data_scope).tenant_id ≡ none) × ((p.data_scope).tenant_id ≡ text "default-tenant"))
        ⊎ ((t : Text) × ((who.data_scope).tenant_id ≡ some (some t))
            × ((p.data_scope).tenant_id ≡ t)))
    × ((p.data_scope).port_id ≡ (who.data_scope).port_id)
    × ((p.data_scope).terminal_id ≡ (who.data_scope).terminal_id)

tenant_of-cases :
    (o : Option (Option Text))
    → o ≢ some none
    → ((o ≡ none) × (tenant_of o ≡ some (text "default-tenant")))
      ⊎ ((t : Text) × (o ≡ some (some t)) × (tenant_of o ≡ some t))
unfolding tenant_of
tenant_of-cases none h = inl (refl, refl)
tenant_of-cases (some none) h = absurd (h refl)
tenant_of-cases (some (some t)) h = inr (t, refl, refl)

-- Who logged in, as a principal of a tenant.
abbrev principal_in : Text → Text → Identity → UserPrincipal
principal_in tenant jti who = record {
  user_id = who.user_id;
  email = who.email;
  roles = who.roles;
  permissions = who.permissions;
  data_scope = record {
    tenant_id = tenant;
    port_id = (who.data_scope).port_id;
    terminal_id = (who.data_scope).terminal_id;
  };
  is_service_account = who.is_service_account;
  is_synthetic = true;
  session_jti = some jti;
}

-- The principal of a token that a login made.
pub principal_of-IsSameIdentity :
    (s : Settings) (issued : ℕ) (jti : Text) (who : Identity)
    → (who.data_scope).tenant_id ≢ some none
    → (p : UserPrincipal) × (principal_of (create_access_token s issued jti who).0 ≡ some p)
      × IsSameIdentity who p
unfolding principal_of create_access_token tenant_of
principal_of-IsSameIdentity s issued jti who given =
    elim (tenant_of-cases (who.data_scope).tenant_id given) [
      | inl (missing, is) ↦ (
        principal_in (text "default-tenant") jti who,
        rw is refl,
        (refl, refl, refl, inl (missing, refl), refl, refl),
      )
      | inr (t, has, is) ↦
          (principal_in t jti who, rw is refl, (refl, refl, refl, inr (t, has, refl), refl, refl))
    ]

-- The roles and permissions of a principal are those of its claims, and none where those are missing.
abbrev pub HasGrants : Claims → UserPrincipal → Type 0
HasGrants c p =
    (((c.roles ≡ none) × (p.roles ≡ [])) ⊎ (c.roles ≡ some p.roles))
    × (((c.permissions ≡ none) × (p.permissions ≡ [])) ⊎ (c.permissions ≡ some p.permissions))

got : (o : Option (List Text)) → ((o ≡ none) × (get_or o [] ≡ [])) ⊎ (o ≡ some (get_or o []))
got none = inl (refl, refl)
got (some ts) = inr refl

pub principal_of-HasGrants :
    (c : Claims) (p : UserPrincipal) → principal_of c ≡ some p → HasGrants c p
unfolding principal_of
principal_of-HasGrants c p is =
    let scope = get_or c.data_scope no_scope in
    elim (Option-cases (tenant_of scope.tenant_id)) [
      | inl raised ↦ absurd (ground arith)
      | inr (t, has) ↦
          let roles : get_or c.roles [] ≡ p.roles = ground arith in
          let permissions : get_or c.permissions [] ≡ p.permissions = ground arith in
          (
            subst (λ r. ((c.roles ≡ none) × (r ≡ [])) ⊎ (c.roles ≡ some r)) roles (got c.roles),
            subst (λ r. ((c.permissions ≡ none) × (r ≡ [])) ⊎ (c.permissions ≡ some r)) permissions
                (got c.permissions),
          )
    ]

-- Who may do something: an administrator, or who has the permission.
abbrev pub IsPermitted : Text → UserPrincipal → Type 0
IsPermitted permission p = In (text "Platform Administrator") p.roles ⊎ In permission p.permissions

includes_iff : (t : Text) (ts : List Text) → (includes t ts ≡ true) ↔ In t ts
includes_iff t [] = (λ h. absurd (ground arith), λ i. absurd i)
includes_iff t (u ∷ ts) = (
  λ h. elim (Bool-cases (t =ᵗ u)) [
    | inl same ↦ inl ((=ᵗ_iff t u).0 same)
    | inr other ↦ inr ((includes_iff t ts).0 (ground arith))
  ],
  λ i. elim i [
    | inl is ↦ ground (arith, (=ᵗ_iff t u).1 is)
    | inr j ↦ ground (arith, (includes_iff t ts).1 j)
  ],
)

pub has_permission-IsPermitted :
    (p : UserPrincipal) (permission : Text)
    → has_permission p permission ≡ true
    → IsPermitted permission p
unfolding has_permission
has_permission-IsPermitted p permission h =
    elim (Bool-cases (includes (text "Platform Administrator") p.roles)) [
      | inl administrator ↦ inl ((includes_iff _ p.roles).0 administrator)
      | inr other ↦ inr ((includes_iff permission p.permissions).0 (ground arith))
    ]

pub permitted_lem :
    (p : UserPrincipal) (permission : Text)
    → In permission p.permissions
    → has_permission p permission ≡ true
unfolding has_permission
permitted_lem p permission i = ground (arith, (includes_iff permission p.permissions).1 i)

-- A token without a session, or one whose session is not recorded or is alive.
abbrev pub IsSessionOpen : Settings → ℕ → Option Text → List SessionRecord → Type 0
IsSessionOpen s now jti db =
    ((jti ≡ none) ⊎ (jti ≡ some []))
    ⊎ ((j : Text) × (jti ≡ some j)
        × ((session_of j db ≡ none)
            ⊎ ((r : SessionRecord) × (session_of j db ≡ some r) × IsAlive s now r)))

pub session_check-IsSessionOpen :
    (s : Settings) (now : ℕ) (jti : Option Text) (db : List SessionRecord)
    → (session_check s now jti db).0 ≡ true
    → IsSessionOpen s now jti db
unfolding session_check
session_check-IsSessionOpen s now none db h = inl (inl refl)
session_check-IsSessionOpen s now (some []) db h = inl (inr refl)
session_check-IsSessionOpen s now (some (c ∷ cs)) db h =
    elim (Option-cases (session_of (c ∷ cs) db)) [
      | inl untracked ↦ inr (c ∷ cs, refl, inl untracked)
      | inr (r, found) ↦
          inr (c ∷ cs, refl, inr (r, found, (is_session_active_iff s now (c ∷ cs) db r found).0 h))
    ]
