-- ===== src/Auth/Rows.antt =====
-- The rows of the tables that backend/auth/migrations.py creates. A timestamp is a number of
-- microseconds since the epoch, in the order of its ISO text.
use snapshot_drive.Prelude.{ℕ, String, Bool, Option, ◌==◌, str_eq}

pub record User : Type 0 where
  pub id : ℕ
  pub email : String
  pub display_name : String
  pub password_hash : String
  pub role : String
  pub mfa_secret : Option String
  pub mfa_enrolled_at : Option ℕ
  pub status : String
  pub failed_attempts : ℕ
  pub lock_count : ℕ
  pub locked_until : Option ℕ
  pub created_at : ℕ
  pub updated_at : ℕ
  pub last_login_at : Option ℕ
  pub mfa_disabled : Bool

pub record Session : Type 0 where
  pub id : String
  pub user_id : ℕ
  pub created_at : ℕ
  pub last_seen_at : ℕ
  pub expires_at : ℕ
  pub ip : Option String
  pub user_agent : Option String
  pub csrf_token : String
  pub mfa_verified : Bool

pub record OldPassword : Type 0 where
  pub user_id : ℕ
  pub password_hash : String
  pub changed_at : ℕ

pub record PasswordReset : Type 0 where
  pub token_hash : String
  pub user_id : ℕ
  pub created_at : ℕ
  pub expires_at : ℕ
  pub consumed_at : Option ℕ

pub record BackupCode : Type 0 where
  pub user_id : ℕ
  pub code_hash : String
  pub consumed_at : Option ℕ

abbrev pub minute : ℕ
minute = 60000000

abbrev pub hour : ℕ
hour = 3600000000

-- WHERE id = ?
abbrev pub user_with : ℕ → User → Bool
user_with i u = u.id == i

abbrev pub session_with : String → Session → Bool
session_with sid s = str_eq s.id sid
