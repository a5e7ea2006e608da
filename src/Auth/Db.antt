-- ===== src/Auth/Db.antt =====
-- The tables of the database that the handlers of backend/auth/routes.py and the middleware share.
use snapshot_drive.Prelude.{List}
use snapshot_drive.Auth.Rows.{User, Session, OldPassword, PasswordReset, BackupCode}
use snapshot_drive.Auth.Audit.{AuditEvent}

pub record Db : Type 0 where
  pub users : List User
  pub sessions : List Session
  pub history : List OldPassword
  pub resets : List PasswordReset
  pub codes : List BackupCode
  pub audit : List AuditEvent
