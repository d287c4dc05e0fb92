-- ===== src/Auth/Session.antt =====
-- apps/api/services/auth_service.py, and the tokens of apps/api/core/security.py that it issues.
-- Times are in microseconds. The claims of a token are modelled, its signature is not.
pub mod Kept
pub mod Lifetime
use marine_time_motion_platf.Prelude.{
  ℕ, ◌+◌, ◌-◌, ◌*◌, Bool, true, false, List, [], ◌∷◌, ◌++◌, ltb, find, if◌then◌else◌, Option, none,
  some,
}
use marine_time_motion_platf.Prelude.Text.{Text, text, ◌=ᵗ◌}
use marine_time_motion_platf.Auth.Principal.{Settings}

pub record SessionRecord : Type 0 where
  pub jti : Text
  pub user_id : Text
  pub is_revoked : Bool
  pub expires_at : ℕ
  pub last_active_at : ℕ

abbrev pub session_of : Text → List SessionRecord → Option SessionRecord
session_of jti db = find (λ r. jti =ᵗ r.jti) db

-- A write to the record that `filter_by(jti=jti).first()` finds.
abbrev pub update_session :
    Text → (SessionRecord → SessionRecord) → List SessionRecord → List SessionRecord
update_session jti f [] = []
update_session jti f (r ∷ rs) =
    let rest = update_session jti f rs in if jti =ᵗ r.jti then f r ∷ rs else r ∷ rest

abbrev pub minutes : ℕ → ℕ
minutes n = n * 60000000

-- The entry "data_scope" of the claims, where a key may be missing or null; for the tenant the two
-- differ, and `some none` is a null.
pub record ScopeClaims : Type 0 where
  pub tenant_id : Option (Option Text)
  pub port_id : Option Text
  pub terminal_id : Option Text

pub data TokenType : Type 0 where
  access refresh : TokenType

-- The payload of a token, where a claim may be missing. None is null, since the code writes them from
-- typed values.
pub record Claims : Type 0 where
  pub sub : Option Text
  pub email : Option Text
  pub roles : Option (List Text)
  pub permissions : Option (List Text)
  pub data_scope : Option ScopeClaims
  pub is_service_account : Option Bool
  pub is_synthetic : Option Bool
  pub jti : Option Text
  pub type : TokenType
  pub iat : ℕ
  pub exp : ℕ

-- Who logs in, as the arguments of `create_user_session`.
pub record Identity : Type 0 where
  pub user_id : Text
  pub email : Text
  pub roles : List Text
  pub permissions : List Text
  pub data_scope : ScopeClaims
  pub is_service_account : Bool

-- The claims of an access token with a fresh id, and its expiry. The code cuts both times to whole
-- seconds.
unfoldable pub create_access_token : Settings → ℕ → Text → Identity → Claims × ℕ
create_access_token s now jti who =
    let expire = now + minutes s.access_token_expire_minutes in
    (
      record {
        sub = some who.user_id;
        email = some who.email;
        roles = some who.roles;
        permissions = some who.permissions;
        data_scope = some who.data_scope;
        is_service_account = some who.is_service_account;
        is_synthetic = none;
        jti = some jti;
        type = access;
        iat = now;
        exp = expire;
      },
      expire,
    )

-- The new session and its token, unless the id is taken, which the table forbids. The token is made
-- at one time and the session recorded at another.
unfoldable pub create_user_session :
    Settings
    → (issued now : ℕ) → Text
    → Identity
    → List SessionRecord
    → Option (List SessionRecord × Claims)
create_user_session s issued now jti who db =
    let (claims, expire) = create_access_token s issued jti who in
    elim (session_of jti db) [
      | some taken ↦ none
      | none ↦ some (
        db
            ++ record {
              jti = jti;
              user_id = who.user_id;
              is_revoked = false;
              expires_at = expire;
              last_active_at = now;
            }
              ∷ [],
        claims,
      )
    ]

abbrev pub revoked : SessionRecord → SessionRecord
revoked r = record r { is_revoked = true }

unfoldable pub revoke_session : Text → List SessionRecord → Bool × List SessionRecord
revoke_session jti db = elim (session_of jti db) [
  | none ↦ (false, db)
  | some r ↦ (true, update_session jti revoked db)
]

unfoldable pub is_session_active :
    Settings → ℕ → Text → List SessionRecord → Bool × List SessionRecord
is_session_active s now jti db = elim (session_of jti db) [
  | none ↦ (true, db)
  | some r ↦
      if r.is_revoked
      then (false, db)
      else if ltb (minutes s.session_idle_timeout_minutes) (now - r.last_active_at)
      then (false, update_session jti revoked db)
      else if ltb r.expires_at now
      then (false, update_session jti revoked db)
      else (true, update_session jti (λ r. record r { last_active_at = now }) db)
]
