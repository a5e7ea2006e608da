-- ===== src/Auth/Enrolment.antt =====
-- backend/auth/routes.py, the handler that ends the enrolment of a second factor: it asks for the
-- address, the password, and a code of the secret that was handed out. `t` gives the clock's readings
-- in their order; `encrypted` is the encryption of the secret, `hashes` those of the backup codes,
-- `sid` and `csrf` the random texts of the session. The secret is taken to be one that the library can
-- read: another makes it raise where the code is checked, before anything is written.
pub mod Confirmed
use snapshot_drive.Prelude.{
  ℕ, String, true, not, ◌||◌, Option, none, some, List, if◌then◌else◌, str_eq,
}
use snapshot_drive.Prelude.Text.{is_empty, lower, strip}
use snapshot_drive.Auth.Rows.{User, Session}
use snapshot_drive.Auth.Db.{Db}
use snapshot_drive.Auth.Audit.{Meta, web_event}
use snapshot_drive.Auth.Lockout.{is_locked, record_failure, record_success}
use snapshot_drive.Auth.Login.{Services}
use snapshot_drive.Auth.Mfa.{enroll_totp, has_secret, verify_totp}
use snapshot_drive.Auth.Passwords.{verify_password}
use snapshot_drive.Auth.Sessions.{create_session}
use snapshot_drive.Auth.Users.{get_user_by_email}

pub data Reply : Type 0 where
  invalid_credentials already_enrolled invalid_code : Reply
  enrolled : Session → Reply

-- The fields of the request; a text that is absent is empty.
pub record Confirmation : Type 0 where
  pub email : String
  pub password : String
  pub secret : String
  pub code : String

module _ (svc : Services) (encrypted : String) (hashes : List String) (sid csrf : String)
    (t : ℕ → ℕ) (meta : Meta) (req : Confirmation) where
  -- The last part: the secret and the backup codes, the event, the session.
  unfoldable pub enrol : User → Db → Db × Reply
  enrol u db =
      let (users, codes) = enroll_totp encrypted hashes (t 1) u.id db.users db.codes in
      let (sessions, s) =
        create_session sid csrf (t 3) u.id meta.ip meta.user_agent true db.sessions in
      (
        record db {
          users = record_success (t 4) (t 5) u.id users;
          codes = codes;
          sessions = sessions;
          audit = web_event (t 2) "mfa_enable" (some u.id) (some u.email) meta none db.audit;
        },
        enrolled s,
      )

  unfoldable pub confirm_for : User → Db → Db × Reply
  unfolding enrol
  confirm_for u db =
      if not (str_eq u.status "active") || is_locked (t 0) u.id db.users
      then (db, invalid_credentials)
      else if verify_password svc.check req.password u.password_hash
      then (if has_secret u
          then (db, already_enrolled)
          else if verify_totp svc.totp req.secret req.code
          then enrol u db
          else (db, invalid_code))
      else (record db { users = record_failure (t 1) (t 2) u.id db.users }, invalid_credentials)

  unfoldable pub confirm_found : Option User → Db → Db × Reply
  unfolding confirm_for
  confirm_found none db = (db, invalid_credentials)
  confirm_found (some u) db = confirm_for u db

  unfoldable pub mfa_enroll_confirm : Db → Db × Reply
  unfolding confirm_found
  mfa_enroll_confirm db =
      let email = lower (strip req.email) in
      confirm_found (if is_empty email then none else get_user_by_email email db.users) db
