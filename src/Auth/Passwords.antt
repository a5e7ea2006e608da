-- ===== src/Auth/Passwords.antt =====
-- backend/auth/passwords.py: the policy for new passwords. The password hasher and the strength
-- estimate are libraries that the code calls, `lower` is that of ASCII texts.
use snapshot_drive.Prelude.{
  ℕ, String, Bool, true, false, not, ◌&&◌, List, [], ◌∷◌, ltb, leb, if◌then◌else◌, take, Result,
  require, ◌>>=◌,
}
pub mod Policy
use snapshot_drive.Central.Tokens.{Verdict, matches, mismatch, invalid_hash}
use snapshot_drive.Prelude.Text.{before, size, lower, contains}

pub data PolicyError : Type 0 where
  too_short has_email has_name too_weak reused : PolicyError

abbrev pub min_len : ℕ
min_len = 12

abbrev pub min_zxcvbn_score : ℕ
min_zxcvbn_score = 3

abbrev pub history_depth : ℕ
history_depth = 5

-- `check hash password` is the outcome of the hasher's `verify`; each exception is a refusal.
unfoldable pub verify_password : (String → String → Verdict) → String → String → Bool
verify_password check password hash = elim (check hash password) [
  | matches ↦ true
  | mismatch ↦ false
  | invalid_hash ↦ false
]

-- the text before the first at sign, in lower case
abbrev pub local_part : String → String
local_part email = before b'@' (lower email)

abbrev pub names : String → String → Bool
names text password = ltb 1 (size text) && contains (lower password) text

unfoldable pub validate_policy :
    (String → ℕ) → String → String → String → Result PolicyError (Unit {0})
validate_policy score password email display_name = do
  _ ← require (leb min_len (size password)) too_short
  _ ← require (not (names (local_part email) password)) has_email
  _ ←
      require (not (ltb 1 (size display_name) && contains (lower password) (lower display_name)))
        has_name
  require (leb min_zxcvbn_score (score password)) too_weak

unfoldable pub matches_any : (String → String → Verdict) → String → List String → Bool
unfolding verify_password
matches_any check password [] = false
matches_any check password (h ∷ hs) =
    let rest = matches_any check password hs in
    if verify_password check password h then true else rest

unfoldable pub check_history :
    (String → String → Verdict) → String → List String → Result PolicyError (Unit {0})
check_history check password hashes =
    require (not (matches_any check password (take history_depth hashes))) reused
