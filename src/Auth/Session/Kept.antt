-- ===== src/Auth/Session/Kept.antt =====
-- What every operation on the sessions keeps.
use marine_time_motion_platf.Prelude.{
  ℕ, ◌+◌, ◌≡◌, refl, ◌⊎◌, inl, inr, true, false, List, [], ◌∷◌, ◌++◌, if◌then◌else◌, none, some,
  Bool-cases, arith,
}
use marine_time_motion_platf.Prelude.Text.{Text, ◌=ᵗ◌, =ᵗ_iff}
use marine_time_motion_platf.Auth.Principal.{Settings}
use marine_time_motion_platf.Auth.Session.{
  SessionRecord, session_of, update_session, minutes, Identity, Claims, create_access_token,
  create_user_session, revoked, revoke_session, is_session_active,
}

-- One operation on the table of sessions, at any time and on any session.
pub data Step (s : Settings) : List SessionRecord → List SessionRecord → Type 0 where
  login :
      {db : List SessionRecord} (issued now : ℕ) (jti : Text) (who : Identity)
      (db' : List SessionRecord) (claims : Claims)
      → create_user_session s issued now jti who db ≡ some (db', claims)
      → Step s db db'
  logout : {db : List SessionRecord} (jti : Text) → Step s db (revoke_session jti db).1
  request :
      {db : List SessionRecord} (now : ℕ) (jti : Text)
      → Step s db (is_session_active s now jti db).1

pub data Steps (s : Settings) (db : List SessionRecord) : List SessionRecord → Type 0 where
  here : Steps s db db
  next : {db' db'' : List SessionRecord} → Steps s db db' → Step s db' db'' → Steps s db db''

-- What a write to one session does to another look-up.
pub session_of-update_session :
    (i j : Text) (f : SessionRecord → SessionRecord) (db : List SessionRecord)
    → ((r : SessionRecord) → (f r).jti ≡ r.jti)
    → session_of j (update_session i f db)
      ≡ elim (session_of j db) [ none ↦ none | some r ↦ if i =ᵗ j then some (f r) else some r ]
session_of-update_session i j f [] keeps = refl
session_of-update_session i j f (r ∷ rs) keeps = ground (
  arith,
  =ᵗ_iff j r.jti,
  =ᵗ_iff i r.jti,
  =ᵗ_iff i j,
  keeps r,
  session_of-update_session i j f rs keeps,
)

session_of-append :
    (j : Text) (db : List SessionRecord) (r new : SessionRecord)
    → session_of j db ≡ some r
    → session_of j (db ++ new ∷ []) ≡ some r
session_of-append j [] r new h = ground arith
session_of-append j (x ∷ xs) r new h = ground (arith, session_of-append j xs r new)

-- What no operation undoes: the session stays recorded, its expiry stays, and so does a revocation.
abbrev pub IsKept : Text → SessionRecord → List SessionRecord → Type 0
IsKept jti r db =
    (r' : SessionRecord) × (session_of jti db ≡ some r')
    × (r'.expires_at ≡ r.expires_at)
    × (r.is_revoked ≡ true → r'.is_revoked ≡ true)

-- A write that may be made to a session.
abbrev IsWrite : (SessionRecord → SessionRecord) → Type 0
IsWrite f =
    (r : SessionRecord)
    → ((f r).jti ≡ r.jti)
      × ((f r).expires_at ≡ r.expires_at)
      × (r.is_revoked ≡ true → (f r).is_revoked ≡ true)

update_session-IsKept :
    (jti i : Text) (r : SessionRecord) (f : SessionRecord → SessionRecord) (db : List SessionRecord)
    → IsWrite f
    → IsKept jti r db
    → IsKept jti r (update_session i f db)
update_session-IsKept jti i r f db write (r', found, expiry, kept) = elim (Bool-cases (i =ᵗ jti)) [
  | inl same ↦ (
    f r',
    ground (arith, session_of-update_session i jti f db (λ x. (write x).0)),
    ground (arith, write r'),
    ground (arith, write r'),
  )
  | inr other ↦
      (r', ground (arith, session_of-update_session i jti f db (λ x. (write x).0)), expiry, kept)
]

revoked-IsWrite : IsWrite revoked
revoked-IsWrite r = (refl, refl, λ h. refl)

abbrev touched : ℕ → SessionRecord → SessionRecord
touched now r = record r { last_active_at = now }

touched-IsWrite : (now : ℕ) → IsWrite (touched now)
touched-IsWrite now r = (refl, refl, λ h. h)

abbrev pub recorded : Settings → (issued now : ℕ) → Text → Identity → SessionRecord
recorded s issued now jti who = record {
  jti = jti;
  user_id = who.user_id;
  is_revoked = false;
  expires_at = issued + minutes s.access_token_expire_minutes;
  last_active_at = now;
}

pub create_user_session-table :
    (s : Settings) (issued now : ℕ) (jti : Text) (who : Identity) (db db' : List SessionRecord)
    (claims : Claims)
    → create_user_session s issued now jti who db ≡ some (db', claims)
    → (session_of jti db ≡ none) × (db' ≡ db ++ recorded s issued now jti who ∷ [])
unfolding create_user_session create_access_token
create_user_session-table s issued now jti who db db' claims made = ground arith

revoke_session-table :
    (jti : Text) (db : List SessionRecord)
    → ((revoke_session jti db).1 ≡ db) ⊎ ((revoke_session jti db).1 ≡ update_session jti revoked db)
unfolding revoke_session
revoke_session-table jti db = ground arith

is_session_active-table :
    (s : Settings) (now : ℕ) (jti : Text) (db : List SessionRecord)
    → ((is_session_active s now jti db).1 ≡ db)
      ⊎ ((is_session_active s now jti db).1 ≡ update_session jti revoked db)
      ⊎ ((is_session_active s now jti db).1 ≡ update_session jti (touched now) db)
unfolding is_session_active
is_session_active-table s now jti db = ground arith

Step-IsKept :
    {s : Settings} {db db' : List SessionRecord} (jti : Text) (r : SessionRecord)
    → Step s db db'
    → IsKept jti r db
    → IsKept jti r db'
Step-IsKept {s = s} jti r (login {db = db} issued now j who db' claims made)
      (r', found, expiry, kept) =
    let table = create_user_session-table s issued now j who db db' claims made in
    (
      r',
      rw (table.1) (session_of-append jti db r' (recorded s issued now j who) found),
      expiry,
      kept,
    )
Step-IsKept jti r (logout {db = db} j) k = elim (revoke_session-table j db) [
  | inl e ↦ rw e k
  | inr e ↦ rw e (update_session-IsKept jti j r revoked db revoked-IsWrite k)
]
Step-IsKept {s = s} jti r (request {db = db} now j) k = elim (is_session_active-table s now j db) [
  | inl e ↦ rw e k
  | inr (inl e) ↦ rw e (update_session-IsKept jti j r revoked db revoked-IsWrite k)
  | inr (inr e) ↦ rw e (update_session-IsKept jti j r (touched now) db (touched-IsWrite now) k)
]

pub Steps-IsKept :
    {s : Settings} {db db' : List SessionRecord} (jti : Text) (r : SessionRecord)
    → Steps s db db'
    → IsKept jti r db
    → IsKept jti r db'
Steps-IsKept jti r here k = k
Steps-IsKept jti r (next steps step) k = Step-IsKept jti r step (Steps-IsKept jti r steps k)
