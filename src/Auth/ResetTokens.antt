-- ===== src/Auth/ResetTokens.antt =====
-- backend/auth/reset_tokens.py: one-shot tokens that reset a password. `hash` is the digest that
-- the code stores, `token` the random text of `secrets`.
use snapshot_drive.Prelude.{
  ℕ, ◌+◌, ◌*◌, String, Bool, not, ◌&&◌, Option, none, some, List, [], ◌∷◌, ◌++◌, ltb, if◌then◌else◌,
  str_eq, is_some, Result, err, ok,
}
pub mod OneShot
use snapshot_drive.Auth.Rows.{PasswordReset, hour}
use snapshot_drive.Prelude.Table.{find, update}

abbrev pub reset_ttl : ℕ
reset_ttl = 1 * hour

abbrev pub reset_with : String → PasswordReset → Bool
reset_with token_hash r = str_eq r.token_hash token_hash

-- The digest is the table's primary key.
pub data CreateError : Type 0 where
  integrity_error : CreateError

unfoldable pub create_reset_token :
    (String → String)
    → String
    → ℕ
    → ℕ
    → List PasswordReset
    → Result CreateError (List PasswordReset × String)
create_reset_token hash token now user_id rows = elim (find (reset_with (hash token)) rows) [
  | some _ ↦ err integrity_error
  | none ↦ ok (
    rows
        ++ record {
          token_hash = hash token;
          user_id = user_id;
          created_at = now;
          expires_at = now + reset_ttl;
          consumed_at = none;
        }
          ∷ [],
    token,
  )
]

abbrev pub consumed : ℕ → PasswordReset → PasswordReset
consumed now r = record r { consumed_at = some now }

-- The two tests on the row that was found.
unfoldable pub is_usable : ℕ → PasswordReset → Bool
is_usable now r = not (is_some r.consumed_at) && ltb now r.expires_at

unfoldable pub consume_reset_token :
    (String → String) → String → ℕ → ℕ → List PasswordReset → List PasswordReset × Option ℕ
consume_reset_token hash token now now' rows = elim (find (reset_with (hash token)) rows) [
  | none ↦ (rows, none)
  | some r ↦
      if is_usable now r
      then (update (reset_with (hash token)) (consumed now') rows, some r.user_id)
      else (rows, none)
]
