-- ===== src/Auth/Login/Admission.antt =====
-- Who the login handler opens a session for, and what the other logins leave.
use snapshot_drive.Prelude.{
  ℕ, String, ◌≡◌, refl, inl, inr, Bool, true, false, not, ◌&&◌, ◌||◌, [], ◌∷◌, ◌++◌, arith, none,
  Option, Bool-cases, Option-cases, some, str_eq, if◌then◌else◌, subst, sym, ap, ◌∙◌,
}
use snapshot_drive.Auth.Rows.{User, Session}
use snapshot_drive.Auth.Db.{Db}
use snapshot_drive.Auth.Users.{is_member, get_user_by_email}
use snapshot_drive.Auth.Mfa.{has_secret}
use snapshot_drive.Auth.Lockout.{is_locked, record_failure}
use snapshot_drive.Auth.Passwords.{verify_password}
use snapshot_drive.Auth.Login.{
  Services, Login, Reply, invalid_credentials, server_error, require_mfa_enroll, require_mfa,
  logged_in, login, login_found, login_as, address, mfa_required_roles, second_factor,
}
use snapshot_drive.Auth.Login.Steps.{
  proves_factor, IsOutcome, second_factor-IsOutcome, second_factor_enrolled,
}
use snapshot_drive.Prelude.Text.{is_empty}

-- The user may sign in with the request's password.
abbrev pub may_sign_in : Services → (ℕ → ℕ) → Login → User → Db → Bool
may_sign_in svc t req u db =
    not (str_eq u.status "disabled")
    && (not (is_locked (t 0) u.id db.users)
        && verify_password svc.check req.password u.password_hash)

module _ (svc : Services) (sid csrf : String) (t : ℕ → ℕ) (req : Login) (email : String) where
  login_as_signed_in :
      (u : User) (db : Db)
      → may_sign_in svc t req u db ≡ true
      → login_as svc sid csrf t req email u db ≡ second_factor svc sid csrf t req email u db
  unfolding login_as
  login_as_signed_in u db may = ground arith

  login_as_refused :
      (u : User) (db : Db)
      → may_sign_in svc t req u db ≡ false
      → ((login_as svc sid csrf t req email u db).1 ≡ invalid_credentials)
        × ((login_as svc sid csrf t req email u db).0.sessions ≡ db.sessions)
        × ((login_as svc sid csrf t req email u db).0.users ≡ (
            if str_eq u.status "disabled"
            then db.users
            else if is_locked (t 0) u.id db.users
            then db.users
            else record_failure (t 1) (t 2) u.id db.users))
  unfolding login_as
  login_as_refused u db may = ground arith

abbrev pub opens_session : Reply → Bool
opens_session (logged_in role name s) = true
opens_session _ = false

-- The user of the request's address.
abbrev pub login_user : Login → Db → Option User
login_user req db =
    if is_empty (address req) then none else get_user_by_email (address req) db.users

IsOutcome-logged_in :
    (mfa p : Bool) (u : User) (db : Db) (r : Db × Reply) {role name : String} {s : Session}
    → IsOutcome mfa p u db r
    → r.1 ≡ logged_in role name s
    → (r.0.sessions ≡ db.sessions ++ s ∷ [])
      × (s.user_id ≡ u.id)
      × (s.mfa_verified ≡ mfa)
      × (mfa ≡ true → p ≡ true)
IsOutcome-logged_in mfa p u db (db', logged_in role' name' s') {s = s} h e =
    let same : s' ≡ s = cc in
    subst
      (λ x.
        (db'.sessions ≡ db.sessions ++ x ∷ [])
        × (x.user_id ≡ u.id)
        × (x.mfa_verified ≡ mfa)
        × (mfa ≡ true → p ≡ true))
      same h
IsOutcome-logged_in mfa p u db (db', invalid_credentials) h e = cc
IsOutcome-logged_in mfa p u db (db', server_error) h e = cc
IsOutcome-logged_in mfa p u db (db', require_mfa_enroll x) h e = cc
IsOutcome-logged_in mfa p u db (db', require_mfa x) h e = cc

IsOutcome-refused :
    (mfa p : Bool) (u : User) (db : Db) (r : Db × Reply)
    → IsOutcome mfa p u db r
    → opens_session r.1 ≡ false
    → r.0.sessions ≡ db.sessions
IsOutcome-refused mfa p u db (db', logged_in role name s) h e = cc
IsOutcome-refused mfa p u db (db', invalid_credentials) h e = h
IsOutcome-refused mfa p u db (db', server_error) h e = h
IsOutcome-refused mfa p u db (db', require_mfa_enroll x) h e = h
IsOutcome-refused mfa p u db (db', require_mfa x) h e = h

-- What the handler has checked when it opened the session `s` for `u`.
abbrev pub IsAdmission : Services → (ℕ → ℕ) → Login → Db → Session → User → Type 0
IsAdmission svc t req db s u =
    (may_sign_in svc t req u db ≡ true)
    × ((is_member u.role mfa_required_roles && (not (has_secret u) && not u.mfa_disabled)) ≡ false)
    × (s.user_id ≡ u.id)
    × (s.mfa_verified ≡ (has_secret u && not u.mfa_disabled))
    × (s.mfa_verified ≡ true → proves_factor svc t req u db ≡ true)

module _ (svc : Services) (sid csrf : String) (t : ℕ → ℕ) (req : Login) (email : String) where
  login_as_admits :
      (u : User) (db : Db) {role name : String} {s : Session}
      → (login_as svc sid csrf t req email u db).1 ≡ logged_in role name s
      → IsAdmission svc t req db s u
        × ((login_as svc sid csrf t req email u db).0.sessions ≡ db.sessions ++ s ∷ [])
  login_as_admits u db {s = s} done = elim (Bool-cases (may_sign_in svc t req u db)) [
    | inl may ↦
        let same = login_as_signed_in svc sid csrf t req email u db may in
        let opened = ap (λ x. x.1) (sym same) ∙ done in
        let (rows, mine, flag, proof) =
          IsOutcome-logged_in _ _ u db (second_factor svc sid csrf t req email u db)
            (second_factor-IsOutcome svc sid csrf t req email u db) opened in
        (
          (
            may,
            second_factor_enrolled svc sid csrf t req email u db opened,
            mine,
            flag,
            λ h. proof (sym flag ∙ h),
          ),
          ap (λ x. x.0.sessions) same ∙ rows,
        )
    | inr not_now ↦ let no = (login_as_refused svc sid csrf t req email u db not_now).0 in cc
  ]

  login_as_keeps :
      (u : User) (db : Db)
      → opens_session (login_as svc sid csrf t req email u db).1 ≡ false
      → (login_as svc sid csrf t req email u db).0.sessions ≡ db.sessions
  login_as_keeps u db shut = elim (Bool-cases (may_sign_in svc t req u db)) [
    | inl may ↦
        let same = login_as_signed_in svc sid csrf t req email u db may in
        ap (λ x. x.0.sessions) same
        ∙ IsOutcome-refused _ _ u db (second_factor svc sid csrf t req email u db)
            (second_factor-IsOutcome svc sid csrf t req email u db)
            (ap (λ x. opens_session x.1) (sym same) ∙ shut)
    | inr not_now ↦ (login_as_refused svc sid csrf t req email u db not_now).1
  ]

-- A login that opens a session is that of the user with the request's address, who is not disabled
-- and not locked out and gave the right password; where the role asks for a second factor, the user
-- has enrolled one or it is switched off for that user. The session is the user's and the only one
-- added; it is marked as verified exactly if the user has a second factor that is not switched off,
-- and then a one-time code or a backup code was given. Any other login opens none.
pub login_lem :
    (svc : Services) (sid csrf : String) (t : ℕ → ℕ) (req : Login) (db : Db)
    → ((role name : String) (s : Session)
        → (login svc sid csrf t req db).1 ≡ logged_in role name s
        → (u : User) × (login_user req db ≡ some u)
          × IsAdmission svc t req db s u
          × ((login svc sid csrf t req db).0.sessions ≡ db.sessions ++ s ∷ []))
      × (opens_session (login svc sid csrf t req db).1 ≡ false
          → (login svc sid csrf t req db).0.sessions ≡ db.sessions)
unfolding login
login_lem svc sid csrf t req db = elim (Option-cases (login_user req db)) [
  | inl nobody ↦ rw (nobody, login_found) (λ role name s h. cc, λ h. refl)
  | inr (u, there) ↦
      rw (there, login_found)
        (
          λ role name s h.
              let (ok, rows) = login_as_admits svc sid csrf t req (address req) u db h in
              (u, refl, ok, rows),
          login_as_keeps svc sid csrf t req (address req) u db,
        )
]

-- A wrong password of a user who may try is counted as a failure of that user; while the account
-- is locked or disabled nothing is counted, whatever the password. All three get the same reply.
pub login_refuses :
    (svc : Services) (sid csrf : String) (t : ℕ → ℕ) (req : Login) (db : Db) (u : User)
    → login_user req db ≡ some u
    → may_sign_in svc t req u db ≡ false
    → ((login svc sid csrf t req db).1 ≡ invalid_credentials)
      × ((login svc sid csrf t req db).0.users ≡ (
          if str_eq u.status "disabled" || is_locked (t 0) u.id db.users
          then db.users
          else record_failure (t 1) (t 2) u.id db.users))
unfolding login
login_refuses svc sid csrf t req db u there not_now =
    let (reply, _, users) = login_as_refused svc sid csrf t req (address req) u db not_now in
    rw (there, login_found) (reply, ground arith)
