-- ===== src/Auth/Mfa.antt =====
-- backend/auth/mfa.py: the second factor. The time-based check and the encryption are libraries
-- that the code calls; `isdigit` is that of ASCII texts.
use snapshot_drive.Prelude.{
  ℕ, String, Bool, true, false, not, ◌&&◌, Option, none, some, List, [], ◌∷◌, ◌++◌, map, leb, ◌==◌,
  if◌then◌else◌, str_eq, is_some,
}
pub mod Codes
use Prim.Native.Char.{code}
use snapshot_drive.Auth.Rows.{User, BackupCode, user_with}
use snapshot_drive.Auth.Passwords.{verify_password}
use snapshot_drive.Central.Tokens.{Verdict}
use snapshot_drive.Prelude.Text.{is_empty}
use snapshot_drive.Prelude.Table.{update, find, select, delete}

all_digits : String → Bool
all_digits String.[] = true
all_digits (String.◌∷◌ c s) = leb 48 (code c) && leb (code c) 57 && all_digits s

-- `not code or not code.isdigit()` fails
unfoldable pub is_code : String → Bool
unfolding all_digits
is_code text = not (is_empty text) && all_digits text

unfoldable pub verify_totp : (String → String → Bool) → String → String → Bool
unfolding is_code
verify_totp totp secret text = is_code text && totp secret text

abbrev pub enrolled : String → ℕ → User → User
enrolled encrypted now u = record u {
  mfa_secret = some encrypted;
  mfa_enrolled_at = some now;
  updated_at = now;
}

abbrev pub fresh_code : ℕ → String → BackupCode
fresh_code user_id h = record { user_id = user_id; code_hash = h; consumed_at = none }

-- `encrypted` is the secret's encryption, `hashes` those of the new codes; every hash has its own
-- salt, so that the rows are new.
unfoldable pub enroll_totp :
    String → List String → ℕ → ℕ → List User → List BackupCode → List User × List BackupCode
enroll_totp encrypted hashes now user_id users codes = (
  update (user_with user_id) (enrolled encrypted now) users,
  codes ++ map (fresh_code user_id) hashes,
)

abbrev pub unenrolled : ℕ → User → User
unenrolled now u = record u { mfa_secret = none; mfa_enrolled_at = none; updated_at = now }

abbrev pub code_of : ℕ → BackupCode → Bool
code_of user_id c = c.user_id == user_id

unfoldable pub disable_totp : ℕ → ℕ → List User → List BackupCode → List User × List BackupCode
disable_totp now user_id users codes =
    (update (user_with user_id) (unenrolled now) users, delete (code_of user_id) codes)

-- WHERE user_id = ? AND consumed_at IS NULL
abbrev pub open_code : ℕ → BackupCode → Bool
open_code user_id c = code_of user_id c && not (is_some c.consumed_at)

-- The first of the rows whose hash the code verifies.
unfoldable pub matching : (String → String → Verdict) → String → List BackupCode → Option BackupCode
unfolding verify_password
matching check text = find (λ c. verify_password check text c.code_hash)

abbrev pub code_with : ℕ → String → BackupCode → Bool
code_with user_id h c = code_of user_id c && str_eq c.code_hash h

abbrev pub used : ℕ → BackupCode → BackupCode
used now c = record c { consumed_at = some now }

unfoldable pub consume_backup_code :
    (String → String → Verdict) → ℕ → ℕ → String → List BackupCode → List BackupCode × Bool
unfolding matching
consume_backup_code check now user_id text codes =
    elim (matching check text (select (open_code user_id) codes)) [
      | none ↦ (codes, false)
      | some c ↦ (update (code_with user_id c.code_hash) (used now) codes, true)
    ]

-- Whether the column holds a text that is not empty.
abbrev pub has_secret : User → Bool
has_secret u = elim u.mfa_secret [ none ↦ false | some s ↦ not (is_empty s) ]

-- `decrypt` gives no text where the encryption refuses its input.
pub data Secret : Type 0 where
  no_secret not_decrypted : Secret
  secret : String → Secret

abbrev pub decrypted : (String → Option String) → Option String → Secret
decrypted decrypt none = no_secret
decrypted decrypt (some text) =
    if is_empty text
    then no_secret
    else (elim (decrypt text) [ none ↦ not_decrypted | some plain ↦ secret plain ])

unfoldable pub get_user_secret : (String → Option String) → ℕ → List User → Secret
get_user_secret decrypt user_id users = elim (find (user_with user_id) users) [
  | none ↦ no_secret
  | some u ↦ decrypted decrypt u.mfa_secret
]
