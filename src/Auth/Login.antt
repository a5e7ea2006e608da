-- ===== src/Auth/Login.antt =====
-- backend/auth/routes.py, the login handler. The wait that makes all failures equally slow, the
-- check against a dummy hash and the cookie's attributes are output or time only. The request's
-- fields are texts. `t` gives the
-- clock's readings in their order, `sid` and `csrf` are the random texts of a new session.
use snapshot_drive.Prelude.{
  ℕ, String, Bool, true, false, not, ◌&&◌, Option, none, some, List, [], ◌∷◌, map, if◌then◌else◌,
  str_eq, ok, err,
}
pub mod Steps
pub mod Admission
use mathlib.Core.Option
use snapshot_drive.Auth.Rows.{User, Session}
use snapshot_drive.Auth.Db.{Db}
use snapshot_drive.Auth.Audit.{AuditEvent, write_event}
use snapshot_drive.Auth.Lockout.{is_locked, record_failure, record_success}
use snapshot_drive.Auth.Sessions.{create_session}
use snapshot_drive.Auth.Users.{get_user_by_email, is_member}
use snapshot_drive.Auth.Passwords.{verify_password}
use snapshot_drive.Auth.Mfa.{
  verify_totp, is_code, consume_backup_code, get_user_secret, Secret, no_secret, not_decrypted,
  secret, has_secret,
}
use snapshot_drive.Central.Tokens.{Verdict}
use snapshot_drive.Prelude.Text.{prefix, is_empty, lower, strip}

-- The libraries that the handler calls: the password hasher, the one-time codes, the encryption.
pub record Services : Type 0 where
  pub check : String → String → Verdict
  pub totp : String → String → Bool
  pub decrypt : String → Option String

-- The fields of the request; a text that is absent is empty.
pub record Login : Type 0 where
  pub email : String
  pub password : String
  pub mfa_code : String
  pub ip : Option String
  pub user_agent : String

pub data Reply : Type 0 where
  invalid_credentials server_error : Reply
  require_mfa_enroll require_mfa : String → Reply
  logged_in : String → String → Session → Reply

abbrev pub mfa_required_roles : List String
mfa_required_roles = "admin" ∷ []

-- `_client_meta`
abbrev pub agent : Login → Option String
agent req = some (prefix 255 req.user_agent)

-- An event that the handler writes; its actor is one that write_event accepts.
unfoldable pub log :
    ℕ → String → Option ℕ → String → Login → Option String → List AuditEvent → List AuditEvent
log now event user_id email req detail rows =
    elim (write_event now "web" event user_id (some email) req.ip (agent req) detail rows) [
      | ok rows' ↦ rows'
      | err _ ↦ rows
    ]

module _ (svc : Services) (sid csrf : String) (t : ℕ → ℕ) (req : Login) (email : String) where
  -- The last part: the session, the counters of failures, the reply.
  unfoldable pub open_session : Bool → User → Db → Db × Reply
  open_session mfa_verified u db =
      let (sessions, s) =
        create_session sid csrf (t 4) u.id req.ip (agent req) mfa_verified db.sessions in
      (
        record db {
          sessions = sessions;
          users = record_success (t 5) (t 6) u.id db.users;
          audit = log (t 7) "login_ok" (some u.id) email req none db.audit;
        },
        logged_in u.role u.display_name s,
      )

  unfoldable pub refuse_code : User → Db → Db × Reply
  refuse_code u db = (
    record db {
      users = record_failure (t 1) (t 2) u.id db.users;
      audit = log (t 3) "mfa_verify_fail" (some u.id) email req none db.audit;
    },
    invalid_credentials,
  )

  unfoldable pub accept_code : User → Db → Db × Reply
  unfolding open_session
  accept_code u db =
      open_session true u
        (record db { audit = log (t 3) "mfa_verify_ok" (some u.id) email req none db.audit })

  -- `consume_backup_code`, where the code is no one-time code
  unfoldable pub try_backup_code : User → Db → Db × Reply
  unfolding refuse_code accept_code
  try_backup_code u db =
      let (codes, hit) = consume_backup_code svc.check (t 0) u.id req.mfa_code db.codes in
      if hit then accept_code u (record db { codes = codes }) else refuse_code u db

  -- A secret that the encryption refuses ends the request with an error; so does one that is gone,
  -- where the code would be checked against it.
  unfoldable pub check_code : User → Db → Secret → Db × Reply
  unfolding accept_code try_backup_code
  check_code u db not_decrypted = (db, server_error)
  check_code u db no_secret =
      if is_code req.mfa_code then (db, server_error) else try_backup_code u db
  check_code u db (secret s) =
      if verify_totp svc.totp s req.mfa_code then accept_code u db else try_backup_code u db

  unfoldable pub challenge : User → Db → Db × Reply
  unfolding check_code
  challenge u db =
      if is_empty req.mfa_code
      then (db, require_mfa u.email)
      else check_code u db (get_user_secret svc.decrypt u.id db.users)

  -- What follows a right password.
  unfoldable pub second_factor : User → Db → Db × Reply
  unfolding challenge open_session
  second_factor u db =
      if is_member u.role mfa_required_roles && (not (has_secret u) && not u.mfa_disabled)
      then (
        record db {
          audit = log (t 1) "login_ok" (some u.id) email req (some "mfa_enroll_required") db.audit;
        },
        require_mfa_enroll u.email,
      )
      else if has_secret u && not u.mfa_disabled
      then challenge u db
      else open_session false u db

  unfoldable pub refuse : String → Option User → Db → Db × Reply
  refuse reason user db = (
    record db {
      audit = log (t 3) "login_fail" (Option.map (λ u. u.id) user) email req (some reason) db.audit;
    },
    invalid_credentials,
  )

  unfoldable pub login_as : User → Db → Db × Reply
  unfolding second_factor refuse
  login_as u db =
      if str_eq u.status "disabled"
      then refuse "disabled" (some u) db
      else if is_locked (t 0) u.id db.users
      then refuse "locked" (some u) db
      else if verify_password svc.check req.password u.password_hash
      then second_factor u db
      else refuse "bad_pwd" (some u)
          (record db { users = record_failure (t 1) (t 2) u.id db.users })

  unfoldable pub login_found : Option User → Db → Db × Reply
  unfolding login_as refuse
  login_found none db = refuse "no_user" none db
  login_found (some u) db = login_as u db

unfoldable pub address : Login → String
address req = lower (strip req.email)

unfoldable pub login : Services → String → String → (ℕ → ℕ) → Login → Db → Db × Reply
unfolding login_found
login svc sid csrf t req db =
    let email = address req in
    let user = if is_empty email then none else get_user_by_email email db.users in
    login_found svc sid csrf t req email user db
