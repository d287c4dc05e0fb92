-- ===== src/Auth/Session/Lifetime.antt =====
-- How long a session lives: what keeps it active, and that it never comes back.
use marine_time_motion_platf.Prelude.{
  ℕ, ◌+◌, ◌≤◌, ◌≡◌, refl, ◌↔◌, ◌⊎◌, inl, inr, true, false, List, [], ◌∷◌, ◌++◌, none, some,
  Option-cases, arith,
}
use marine_time_motion_platf.Prelude.Text.{Text, =ᵗ_iff, =ᵗ_refl}
use marine_time_motion_platf.Auth.Principal.{Settings}
use marine_time_motion_platf.Auth.Session.{
  SessionRecord, session_of, update_session, minutes, Identity, Claims, create_access_token,
  create_user_session, revoked, revoke_session, is_session_active,
}
use marine_time_motion_platf.Auth.Session.Kept.{
  Steps, session_of-update_session, recorded, create_user_session-table, Steps-IsKept,
}

-- A session that is recorded and was neither idle too long nor has expired nor been revoked.
abbrev pub IsAlive : Settings → ℕ → SessionRecord → Type 0
IsAlive s now r =
    (r.is_revoked ≡ false)
    × (now ≤ r.last_active_at + minutes s.session_idle_timeout_minutes)
    × (now ≤ r.expires_at)

-- A request passes on a recorded session exactly if the session is not revoked, was last used
-- within the idle timeout, and has not expired.
pub is_session_active_iff :
    (s : Settings) (now : ℕ) (jti : Text) (db : List SessionRecord) (r : SessionRecord)
    → session_of jti db ≡ some r
    → ((is_session_active s now jti db).0 ≡ true) ↔ IsAlive s now r
unfolding is_session_active
is_session_active_iff s now jti db r found = ground arith

pub session_of-append_fresh :
    (j : Text) (db : List SessionRecord) (new : SessionRecord)
    → session_of j db ≡ none
    → new.jti ≡ j
    → session_of j (db ++ new ∷ []) ≡ some new
session_of-append_fresh j [] new free e = ground (arith, =ᵗ_iff j new.jti)
session_of-append_fresh j (x ∷ xs) new free e = ground (arith, session_of-append_fresh j xs new)

session_of-update_session_same :
    (j : Text) (f : SessionRecord → SessionRecord) (db : List SessionRecord) (r : SessionRecord)
    → ((x : SessionRecord) → (f x).jti ≡ x.jti)
    → session_of j db ≡ some r
    → session_of j (update_session j f db) ≡ some (f r)
session_of-update_session_same j f db r keeps found =
    ground (arith, session_of-update_session j j f db keeps, =ᵗ_refl j)

refused-table :
    (s : Settings) (now : ℕ) (jti : Text) (db : List SessionRecord) (r : SessionRecord)
    → session_of jti db ≡ some r
    → (is_session_active s now jti db).0 ≡ false
    → ((r.is_revoked ≡ true) × ((is_session_active s now jti db).1 ≡ db))
      ⊎ ((is_session_active s now jti db).1 ≡ update_session jti revoked db)
unfolding is_session_active
refused-table s now jti db r found refused = ground arith

refused_is_recorded :
    (s : Settings) (now : ℕ) (jti : Text) (db : List SessionRecord)
    → (is_session_active s now jti db).0 ≡ false
    → (r : SessionRecord) × (session_of jti db ≡ some r)
unfolding is_session_active
refused_is_recorded s now jti db refused = elim (Option-cases (session_of jti db)) [
  | inl e ↦ ground arith
  | inr found ↦ found
]

refused_is_revoked :
    (s : Settings) (now : ℕ) (jti : Text) (db : List SessionRecord)
    → (is_session_active s now jti db).0 ≡ false
    → (r : SessionRecord) × (session_of jti (is_session_active s now jti db).1 ≡ some r)
      × (r.is_revoked ≡ true)
refused_is_revoked s now jti db refused =
    let (r, found) = refused_is_recorded s now jti db refused in
    elim (refused-table s now jti db r found refused) [
      | inl (was, e) ↦ (r, rw e found, was)
      | inr e ↦ (
        revoked r,
        rw e (session_of-update_session_same jti revoked db r (λ x. refl) found),
        refl,
      )
    ]

logged_out_is_revoked :
    (jti : Text) (db : List SessionRecord)
    → (revoke_session jti db).0 ≡ true
    → (r : SessionRecord) × (session_of jti (revoke_session jti db).1 ≡ some r)
      × (r.is_revoked ≡ true)
unfolding revoke_session
logged_out_is_revoked jti db done = elim (Option-cases (session_of jti db)) [
  | inl e ↦ ground arith
  | inr (r, e) ↦ (
    revoked r,
    ground (arith, session_of-update_session_same jti revoked db r (λ x. refl) e),
    refl,
  )
]

-- A session that was refused once, because it was revoked, idle for too long or expired, is refused
-- at every later request, whatever happened in between and whatever the clock says.
pub refused_stays_refused :
    (s : Settings) (now later : ℕ) (jti : Text) (db db' : List SessionRecord)
    → (is_session_active s now jti db).0 ≡ false
    → Steps s (is_session_active s now jti db).1 db'
    → (is_session_active s later jti db').0 ≡ false
refused_stays_refused s now later jti db db' refused steps =
    let (r, found, revoked_now) = refused_is_revoked s now jti db refused in
    let (r', found', expiry, kept) = Steps-IsKept jti r steps (r, found, refl, λ h. h) in
    ground (arith, is_session_active_iff s later jti db' r')

-- A session that was logged out is refused at every later request.
pub revoked_stays_refused :
    (s : Settings) (later : ℕ) (jti : Text) (db db' : List SessionRecord)
    → (revoke_session jti db).0 ≡ true
    → Steps s (revoke_session jti db).1 db'
    → (is_session_active s later jti db').0 ≡ false
revoked_stays_refused s later jti db db' done steps =
    let (r, found, revoked_now) = logged_out_is_revoked jti db done in
    let (r', found', expiry, kept) = Steps-IsKept jti r steps (r, found, refl, λ h. h) in
    ground (arith, is_session_active_iff s later jti db' r')

pub create_user_session-claims :
    (s : Settings) (issued now : ℕ) (jti : Text) (who : Identity) (db db' : List SessionRecord)
    (claims : Claims)
    → create_user_session s issued now jti who db ≡ some (db', claims)
    → claims ≡ (create_access_token s issued jti who).0
unfolding create_user_session
create_user_session-claims s issued now jti who db db' claims made = ground arith

pub create_user_session-session_of :
    (s : Settings) (issued now : ℕ) (jti : Text) (who : Identity) (db db' : List SessionRecord)
    (claims : Claims)
    → create_user_session s issued now jti who db ≡ some (db', claims)
    → session_of jti db' ≡ some (recorded s issued now jti who)
create_user_session-session_of s issued now jti who db db' claims made =
    let (free, e) = create_user_session-table s issued now jti who db db' claims made in
    rw e (session_of-append_fresh jti db (recorded s issued now jti who) free refl)

-- No use extends a session beyond the time for which its token was issued.
pub active-le-expiry :
    (s : Settings) (issued now later : ℕ) (jti : Text) (who : Identity)
    (db db' db'' : List SessionRecord) (claims : Claims)
    → create_user_session s issued now jti who db ≡ some (db', claims)
    → Steps s db' db''
    → (is_session_active s later jti db'').0 ≡ true
    → later ≤ issued + minutes s.access_token_expire_minutes
active-le-expiry s issued now later jti who db db' db'' claims made steps active =
    let new = recorded s issued now jti who in
    let start = create_user_session-session_of s issued now jti who db db' claims made in
    let (r', found', expiry, kept) = Steps-IsKept jti new steps (new, start, refl, λ h. h) in
    ground (arith, is_session_active_iff s later jti db'' r')
