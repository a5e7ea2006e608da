-- ===== src/Auth/Lockout.antt =====
-- backend/auth/lockout.py: failed logins lock the account, each time for twice as long, up to a
-- day. `now` and `now'` are the clock readings of a call, in order.
use snapshot_drive.Prelude.{
  ℕ, ◌+◌, ◌-◌, ◌*◌, Bool, false, Option, none, some, List, ltb, leb, if◌then◌else◌, min, ◌^◌,
}
pub mod Locking
use snapshot_drive.Auth.Rows.{User, user_with, minute}
use snapshot_drive.Prelude.Table.{find, update}

abbrev pub max_attempts : ℕ
max_attempts = 5

abbrev pub base_lock_minutes : ℕ
base_lock_minutes = 15

abbrev pub max_lock_hours : ℕ
max_lock_hours = 24

abbrev pub is_after : ℕ → Option ℕ → Bool
is_after now none = false
is_after now (some until) = ltb now until

unfoldable pub is_locked : ℕ → ℕ → List User → Bool
is_locked now user_id users = elim (find (user_with user_id) users) [
  | none ↦ false
  | some u ↦ is_after now u.locked_until
]

-- How long the lock lasts that makes the count of locks `lock_count`.
unfoldable pub lock_minutes : ℕ → ℕ
lock_minutes lock_count = min (base_lock_minutes * 2 ^ (lock_count - 1)) (max_lock_hours * 60)

-- The row after a failure; `attempts` and `locks` are the columns before it.
unfoldable pub after_failure : ℕ → ℕ → ℕ → ℕ → User → User
after_failure now now' attempts locks u =
    if leb max_attempts (attempts + 1)
    then record u {
      failed_attempts = 0;
      lock_count = locks + 1;
      locked_until = some (now + lock_minutes (locks + 1) * minute);
      updated_at = now';
    }
    else record u { failed_attempts = attempts + 1; updated_at = now }

unfoldable pub record_failure : ℕ → ℕ → ℕ → List User → List User
record_failure now now' user_id users = elim (find (user_with user_id) users) [
  | none ↦ users
  | some u ↦
      update (user_with user_id) (after_failure now now' u.failed_attempts u.lock_count) users
]

abbrev pub after_success : ℕ → ℕ → User → User
after_success now now' u = record u {
  failed_attempts = 0;
  lock_count = 0;
  locked_until = none;
  last_login_at = some now;
  updated_at = now';
}

unfoldable pub record_success : ℕ → ℕ → ℕ → List User → List User
record_success now now' user_id = update (user_with user_id) (after_success now now')
