-- ===== src/Auth/Gate/Admission.antt =====
-- Who is admitted by a protected route.
use marine_time_motion_platf.Prelude.{
  ℕ, ◌≤◌, ◌+◌, ◌≡◌, refl, sym, subst, ap, ◌∙◌, ◌≢◌, ◌⊎◌, inl, inr, true, none, ◌&&◌, List, [],
  Option, some, Option-cases, Bool-cases, arith,
}
use marine_time_motion_platf.Prelude.Members.{In}
use marine_time_motion_platf.Prelude.Text.{Text, text, ◌=ᵗ◌, =ᵗ_iff, non_empty_iff}
use marine_time_motion_platf.Auth.Principal.{UserPrincipal, Settings, has_permission}
use marine_time_motion_platf.Auth.Tenant.{is_development}
use marine_time_motion_platf.Auth.Session.{
  SessionRecord, minutes, Claims, Identity, create_access_token, create_user_session,
}
use marine_time_motion_platf.Auth.Session.Lifetime.{
  is_session_active_iff, create_user_session-claims, create_user_session-session_of,
}
use marine_time_motion_platf.Auth.Session.Kept.{recorded}
use marine_time_motion_platf.Auth.Gate.{
  Request, Refusal, Outcome, granted, refused, FailedAuth, Log, token_of, development_principal,
  principal_of, session_check, get_current_principal, check_permission, require,
}
use marine_time_motion_platf.Auth.Gate.Access.{
  HasGrants, principal_of-HasGrants, IsSameIdentity, principal_of-IsSameIdentity, IsPermitted,
  has_permission-IsPermitted, permitted_lem, IsSessionOpen, session_check-IsSessionOpen,
}

Outcome-cases :
    {A : Type 0} (o : Outcome A) → ((r : Refusal) × (o ≡ refused r)) ⊎ ((a : A) × (o ≡ granted a))
Outcome-cases (granted a) = inr (a, refl)
Outcome-cases (refused r) = inl (r, refl)

check_permission-granted :
    (permission : Text) (resource : Option Text) (request : Request) (p q : UserPrincipal)
    (audit : List FailedAuth)
    → (check_permission permission resource request p audit).0 ≡ granted q
    → (p ≡ q)
      × (has_permission p permission ≡ true)
      × ((check_permission permission resource request p audit).1 ≡ audit)
unfolding check_permission
check_permission-granted permission resource request p q audit h = ground arith

create_user_session-session_check :
    (s : Settings) (issued start now : ℕ) (jti : Text) (who : Identity)
    (db db' : List SessionRecord) (claims : Claims)
    → create_user_session s issued start jti who db ≡ some (db', claims)
    → now ≤ start + minutes s.session_idle_timeout_minutes
    → now ≤ issued + minutes s.access_token_expire_minutes
    → (session_check s now (some jti) db').0 ≡ true
unfolding session_check
create_user_session-session_check s issued start now jti who db db' claims made idle absolute =
    let found = create_user_session-session_of s issued start jti who db db' claims made in
    ground (arith, is_session_active_iff s now jti db' (recorded s issued start jti who) found)

module _ (decode_token : ℕ → Text → Option Claims) where
  -- The principal of a request: that of local development, or that of a valid token whose session
  -- is untracked or alive.
  abbrev pub IsAuthentic : Settings → ℕ → Request → List SessionRecord → UserPrincipal → Type 0
  IsAuthentic s now request db p =
      (((token_of request ≡ text "dev-token") × (s.environment ≡ text "development"))
        × (p ≡ development_principal s))
      ⊎ ((c : Claims) × (decode_token now (token_of request) ≡ some c)
          × (principal_of c ≡ some p)
          × HasGrants c p
          × IsSessionOpen s now c.jti db)

  get_current_principal-IsAuthentic :
      (s : Settings) (now : ℕ) (request : Request) (db : List SessionRecord) (p : UserPrincipal)
      → (get_current_principal decode_token s now request db).0 ≡ granted p
      → IsAuthentic s now request db p
  unfolding get_current_principal
  get_current_principal-IsAuthentic s now request db p h =
      elim (Option-cases (decode_token now (token_of request))) [
        | inl e ↦ ground (
          arith,
          =ᵗ_iff (token_of request) (text "dev-token"),
          =ᵗ_iff s.environment (text "development"),
        )
        | inr (c, e) ↦
            elim (Bool-cases ((token_of request =ᵗ text "dev-token") && is_development s)) [
              | inl dev ↦ inl (
                  ground (
                    arith,
                    =ᵗ_iff (token_of request) (text "dev-token"),
                    =ᵗ_iff s.environment (text "development"),
                  ))
              | inr other ↦ elim (Bool-cases (session_check s now c.jti db).0) [
                | inr closed ↦ absurd (ground arith)
                | inl alive ↦ elim (Option-cases (principal_of c)) [
                  | inl raised ↦ absurd (ground arith)
                  | inr (q, is) ↦ inr (
                    c,
                    e,
                    ground arith,
                    principal_of-HasGrants c p (ground arith),
                    session_check-IsSessionOpen s now c.jti db alive,
                  )
                ]
              ]
            ]
      ]

  -- A protected route admits nobody without the permission: who is admitted is the administrator of
  -- local development, or has a token that decodes and, if it names a session, one that is not recorded,
  -- or is recorded, not revoked, not idle for too long and not expired; has the permission or the role
  -- of an administrator, which for a token are those that it says, and none if it says none; and nothing is added to the audit log.
  pub require-IsAuthentic :
      (permission : Text) (resource : Option Text) (s : Settings) (now : ℕ) (request : Request)
      (log : Log) (p : UserPrincipal)
      → (require decode_token permission resource s now request log).0 ≡ granted p
      → IsAuthentic s now request log.sessions p
        × IsPermitted permission p
        × ((require decode_token permission resource s now request log).1.audit ≡ log.audit)
  unfolding require
  require-IsAuthentic permission resource s now request log p h =
      elim (Outcome-cases (get_current_principal decode_token s now request log.sessions).0) [
        | inl (r, e) ↦ ground arith
        | inr (q, e) ↦
            let done =
              check_permission-granted permission resource request q p log.audit (ground arith) in
            (
              get_current_principal-IsAuthentic s now request log.sessions p
                  (e ∙ ap granted done.0),
              subst (IsPermitted permission) done.0
                  (has_permission-IsPermitted q permission done.1),
              ground (arith, done),
            )
      ]

  get_current_principal-granted :
      (s : Settings) (now : ℕ) (request : Request) (db : List SessionRecord) (c : Claims)
      (p : UserPrincipal)
      → principal_of c ≡ some p
      → token_of request ≢ []
      → token_of request ≢ text "dev-token"
      → decode_token now (token_of request) ≡ some c
      → (session_check s now c.jti db).0 ≡ true
      → (get_current_principal decode_token s now request db).0 ≡ granted p
  unfolding get_current_principal
  get_current_principal-granted s now request db c p is some_token other valid alive =
      ground (arith, =ᵗ_iff (token_of request) (text "dev-token"), non_empty_iff (token_of request))

  require-granted :
      (permission : Text) (resource : Option Text) (s : Settings) (now : ℕ) (request : Request)
      (log : Log) (p : UserPrincipal)
      → (get_current_principal decode_token s now request log.sessions).0 ≡ granted p
      → has_permission p permission ≡ true
      → (require decode_token permission resource s now request log).0 ≡ granted p
  unfolding require check_permission
  require-granted permission resource s now request log p who may = ground arith

  -- A login admits. Where its token is neither empty nor "dev-token" and decodes to its claims from
  -- when it was issued until a second before it expires, and the tenant of the login is not null: from
  -- the issue until then, unless the session is idle for too long, a route is open to each permission
  -- that the login was given, for the identity that logged in.
  pub create_user_session-require :
      (s : Settings) (issued start now : ℕ) (jti : Text) (who : Identity) (log : Log)
      (db' : List SessionRecord) (claims : Claims) (permission : Text) (resource : Option Text)
      (request : Request)
      → create_user_session s issued start jti who log.sessions ≡ some (db', claims)
      → ((t : ℕ)
          → claims.iat ≤ t
          → t + 1000000 ≤ claims.exp
          → decode_token t (token_of request) ≡ some claims)
      → (who.data_scope).tenant_id ≢ some none
      → token_of request ≢ []
      → token_of request ≢ text "dev-token"
      → issued ≤ now
      → now ≤ start + minutes s.session_idle_timeout_minutes
      → now + 1000000 ≤ issued + minutes s.access_token_expire_minutes
      → In permission who.permissions
      → (p : UserPrincipal) × ((require decode_token permission resource s now request
            (record log { sessions = db' })).0
          ≡ granted p)
        × IsSameIdentity who p
  unfolding create_access_token
  create_user_session-require s issued start now jti who log db' claims permission resource request
        made codec tenant some_token other since idle absolute allowed =
      let c = (create_access_token s issued jti who).0 in
      let same = create_user_session-claims s issued start jti who log.sessions db' claims made in
      let valid : decode_token now (token_of request) ≡ some c =
        codec now (rw same since) (rw same absolute) ∙ ap some same in
      let alive =
        create_user_session-session_check s issued start now jti who log.sessions db' claims made
          idle (omega arith) in
      let (p, is, identity) = principal_of-IsSameIdentity s issued jti who tenant in
      let may = permitted_lem p permission (subst (In permission) (sym identity.2) allowed) in
      (
        p,
        require-granted permission resource s now request (record log { sessions = db' }) p
            (get_current_principal-granted s now request db' c p is some_token other valid alive)
            may,
        identity,
      )
