-- ===== src/Auth/Admin.antt =====
-- backend/auth/routes.py, the handlers by which an admin manages a user: the role, the status, the
-- password, the sessions and the second factor. Of an event's detail the model keeps the address of
-- the admin. `t` gives the clock's readings in their order; `new_hash` is the hash that the hasher
-- makes of the temporary password.
pub mod Guarded
use snapshot_drive.Prelude.{
  ℕ, String, Option, none, some, ◌==◌, if◌then◌else◌, Result, ok, err, List,
}
use snapshot_drive.Prelude.Text.{strip}
use snapshot_drive.Auth.Rows.{User, OldPassword}
use snapshot_drive.Auth.Db.{Db}
use snapshot_drive.Auth.Audit.{web_event}
use snapshot_drive.Auth.Middleware.{Context, granted, require_role}
use snapshot_drive.Auth.Middleware
use snapshot_drive.Auth.Mfa.{disable_totp}
use snapshot_drive.Auth.Sessions.{revoke_user_sessions}
use snapshot_drive.Auth.Users.{
  UserError, is_member, valid_roles, get_user_by_id, set_role, set_status, update_password,
}

-- `raised` is an exception that leaves the handler.
pub data Reply : Type 0 where
  unauthenticated forbidden user_not_found invalid_role own_role done raised : Reply

-- What follows set_role and set_status, whose UserNotFound is caught.
abbrev pub when_found : Result UserError (List User) → (Db → Db) → Db → Db × Reply
when_found (err _) rest db = (db, user_not_found)
when_found (ok users) rest db = (rest (record db { users = users }), done)

module _ (t : ℕ → ℕ) (ip : Option String) (uid : ℕ) where
  -- The event of the operation, by the admin.
  abbrev pub noted : ℕ → String → Option String → User → Db → Db
  noted n event email admin db = record db {
    audit =
        web_event (t n) event (some uid) email (record { ip = ip; user_agent = none })
          (some admin.email) db.audit;
  }

  abbrev pub without_sessions : Db → Db
  without_sessions db = record db { sessions = revoke_user_sessions uid db.sessions }

  unfoldable pub set_role_route : String → User → Db → Db × Reply
  set_role_route given admin db =
      let role = strip given in
      if is_member role valid_roles
      then (if admin.id == uid
          then (db, own_role)
          else when_found (set_role (t 0) uid role db.users) (noted 1 "role_change" none admin) db)
      else (db, invalid_role)

  unfoldable pub disable_route : User → Db → Db × Reply
  disable_route admin db =
      when_found (set_status (t 0) uid "disabled" db.users)
        (λ db'. noted 1 "user_disable" none admin (without_sessions db')) db

  unfoldable pub enable_route : User → Db → Db × Reply
  enable_route admin db = when_found (set_status (t 0) uid "active" db.users) (λ db'. db') db

  -- What follows update_password, whose exceptions leave the handler.
  abbrev pub with_temporary :
      User → User → List User × Result UserError (List OldPassword) → Db → Db × Reply
  with_temporary admin target (users, err _) db = (record db { users = users }, raised)
  with_temporary admin target (users, ok history) db = (
    noted 2 "pwd_change" (some target.email) admin
        (without_sessions (record db { users = users; history = history })),
    done,
  )

  unfoldable pub admin_reset_password_route : String → User → Db → Db × Reply
  admin_reset_password_route new_hash admin db = elim (get_user_by_id uid db.users) [
    | none ↦ (db, user_not_found)
    | some target ↦
        with_temporary admin target (update_password (t 0) (t 1) uid new_hash db.users db.history)
          db
  ]

  unfoldable pub revoke_sessions_route : User → Db → Db × Reply
  revoke_sessions_route admin db =
      (noted 0 "session_revoked_admin" none admin (without_sessions db), done)

  unfoldable pub reset_mfa_route : User → Db → Db × Reply
  reset_mfa_route admin db = elim (get_user_by_id uid db.users) [
    | none ↦ (db, user_not_found)
    | some target ↦
        let (users, codes) = disable_totp (t 0) uid db.users db.codes in
        (
          noted 1 "mfa_disable" (some target.email) admin
              (record db { users = users; codes = codes }),
          done,
        )
  ]

-- A request to one of these endpoints, with what it brings.
pub data Operation : Type 0 where
  setting_role resetting_password : String → Operation
  disabling enabling revoking_sessions resetting_mfa : Operation

unfoldable pub run : (ℕ → ℕ) → Option String → ℕ → Operation → User → Db → Db × Reply
unfolding set_role_route disable_route enable_route admin_reset_password_route
run t ip uid (setting_role role) = set_role_route t ip uid role
run t ip uid (resetting_password new_hash) = admin_reset_password_route t ip uid new_hash
run t ip uid disabling = disable_route t ip uid
run t ip uid enabling = enable_route t ip uid
run t ip uid revoking_sessions = revoke_sessions_route t ip uid
run t ip uid resetting_mfa = reset_mfa_route t ip uid

-- The endpoint behind its @require_role("admin").
unfoldable pub handle : (ℕ → ℕ) → Option String → ℕ → Operation → Context → Db → Db × Reply
unfolding run
handle t ip uid o g db = elim (require_role "admin" g) [
  | Middleware.unauthenticated ↦ (db, unauthenticated)
  | Middleware.forbidden ↦ (db, forbidden)
  | granted admin ↦ run t ip uid o admin db
]
