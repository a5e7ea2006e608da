-- ===== src/Auth/Account.antt =====
-- backend/auth/routes.py, the handlers by which users change their own account: logout, the change
-- of a password, and its reset by mail. The mail itself is output only. `t` gives the clock's
-- readings in their order; the fields of a request are texts, empty where they are absent.
pub mod Reset
pub mod Change
use snapshot_drive.Prelude.{
  ℕ, String, Option, none, some, List, if◌then◌else◌, str_eq, Result, ok, err, ◌>>=◌,
}
use snapshot_drive.Prelude.Text.{is_empty, lower, strip}
use snapshot_drive.Auth.Rows.{User, OldPassword}
use snapshot_drive.Auth.Db.{Db}
use snapshot_drive.Auth.Audit.{Meta, web_event}
use snapshot_drive.Auth.Middleware.{Context}
use snapshot_drive.Auth.Passwords.{PolicyError, verify_password, validate_policy, check_history}
use snapshot_drive.Auth.ResetTokens.{create_reset_token, consume_reset_token}
use snapshot_drive.Auth.Sessions.{revoke_session, revoke_user_sessions}
use snapshot_drive.Auth.Users.{
  UserError, get_user_by_email, get_user_by_id, get_password_history, update_password,
}
use snapshot_drive.Central.Tokens.{Verdict}

-- The libraries: the outcome of the hasher's `verify`, the hash that it makes of the new password,
-- the strength estimate, the digest of a reset token.
pub record Hashing : Type 0 where
  pub check : String → String → Verdict
  pub new_hash : String
  pub score : String → ℕ
  pub digest : String → String

-- `raised` is an exception that leaves the handler.
pub data Reply : Type 0 where
  unauthenticated wrong_password unchanged invalid_token done raised : Reply
  refused : PolicyError → Reply

-- The current user is there whenever the session is.
unfoldable pub logout : (ℕ → ℕ) → Meta → Context → Db → Db × Reply
logout t meta g db = elim g.session [
  | none ↦ (db, done)
  | some s ↦ elim g.current_user [
    | none ↦ (record db { sessions = revoke_session s.id db.sessions }, raised)
    | some u ↦ (
      record db {
        sessions = revoke_session s.id db.sessions;
        audit = web_event (t 0) "logout" (some u.id) (some u.email) meta none db.audit;
      },
      done,
    )
  ]
]

-- validate_policy and check_history, as both handlers call them
unfoldable pub accepts_new : Hashing → String → User → Db → Result PolicyError (Unit {0})
accepts_new h new u db = do
  _ ← validate_policy h.score new u.email u.display_name
  check_history h.check new (get_password_history u.id db.history)

-- What follows update_password, whose exceptions leave the handler.
abbrev pub stored : List User × Result UserError (List OldPassword) → (Db → Db) → Db → Db × Reply
stored (users, err _) rest db = (record db { users = users }, raised)
stored (users, ok history) rest db = (rest (record db { users = users; history = history }), done)

module _ (h : Hashing) (t : ℕ → ℕ) (meta : Meta) where
  -- The event of a change.
  abbrev pub after_change : User → Db → Db
  after_change u db = record db {
    audit = web_event (t 2) "pwd_change" (some u.id) (some u.email) meta none db.audit;
  }

  unfoldable pub change_of : String → String → User → Db → Db × Reply
  unfolding accepts_new
  change_of current new u db =
      if verify_password h.check current u.password_hash
      then (elim (accepts_new h new u db) [
        | err e ↦ (db, refused e)
        | ok _ ↦
            if verify_password h.check new u.password_hash
            then (db, unchanged)
            else stored (update_password (t 0) (t 1) u.id h.new_hash db.users db.history)
                (after_change u) db
      ])
      else (db, wrong_password)

  unfoldable pub password_change : String → String → Context → Db → Db × Reply
  unfolding change_of
  password_change current new g db = elim g.current_user [
    | none ↦ (db, unauthenticated)
    | some u ↦ change_of current new u db
  ]

  -- `token` is the random text of a new token; its digest is new.
  unfoldable pub request_for : String → Option User → String → Db → Db × Reply
  request_for token none email db = (db, done)
  request_for token (some u) email db =
      if str_eq u.status "active"
      then (elim (create_reset_token h.digest token (t 0) u.id db.resets) [
        | err _ ↦ (db, raised)
        | ok (resets, _) ↦ (
          record db {
            resets = resets;
            audit = web_event (t 1) "reset_request" (some u.id) (some email) meta none db.audit;
          },
          done,
        )
      ])
      else (db, done)

  unfoldable pub reset_request : String → String → Db → Db × Reply
  unfolding request_for
  reset_request token given db =
      let email = lower (strip given) in
      let user = if is_empty email then none else get_user_by_email email db.users in
      request_for token user email db

  -- The sessions and the events of a reset.
  abbrev pub after_reset : User → Db → Db
  after_reset u db = record db {
    sessions = revoke_user_sessions u.id db.sessions;
    audit =
        web_event (t 5) "pwd_change" (some u.id) (some u.email) meta none
          (web_event (t 4) "reset_consume" (some u.id) (some u.email) meta none db.audit);
  }

  -- The user whose token was just used up.
  unfoldable pub reset_for : String → Option User → Db → Db × Reply
  unfolding accepts_new
  reset_for new none db = (db, invalid_token)
  reset_for new (some u) db = elim (accepts_new h new u db) [
    | err e ↦ (db, refused e)
    | ok _ ↦
        stored (update_password (t 2) (t 3) u.id h.new_hash db.users db.history) (after_reset u) db
  ]

  unfoldable pub reset_consume : String → String → Db → Db × Reply
  unfolding reset_for
  reset_consume token new db =
      let (resets, used_by) = consume_reset_token h.digest token (t 0) (t 1) db.resets in
      elim used_by [
        | none ↦ (record db { resets = resets }, invalid_token)
        | some i ↦ reset_for new (get_user_by_id i db.users) (record db { resets = resets })
      ]
