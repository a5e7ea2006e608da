-- ===== src/Central/Tokens.antt =====
-- backend/central/tokens.py: the bearer tokens of the clients. The argon2 hasher is a parameter.
use snapshot_drive.Prelude.{
  ℕ, String, Bool, false, not, ◌&&◌, ◌||◌, Option, none, some, List, [], ◌∷◌, ◌++◌, ltb, leb, ◌==◌,
  if◌then◌else◌, is_some, Result, ok, err, ◌>>=◌,
}
pub mod Verify
use snapshot_drive.Prelude.Text.{is_empty, size}
use snapshot_drive.Central.Rows.{Token}
use snapshot_drive.Prelude.Table.{update, select}
use snapshot_drive.Prelude.Sort.{sort_by, downwards}

-- What argon2's `verify(hash, plaintext)` does: it returns, it raises VerifyMismatchError, or it
-- raises another exception, as for a text that is no hash.
pub data Verdict : Type 0 where
  matches mismatch invalid_hash : Verdict

pub record Hasher : Type 0 where
  pub hash : String → String
  pub check : String → String → Verdict

pub record TokenInfo : Type 0 where
  pub id : ℕ
  pub client_id : ℕ
  pub scope : String
  pub label : String

-- an exception that `verify` lets through
pub data Error : Type 0 where
  hash_error : Error

abbrev pub by_id : ℕ → Token → Bool
by_id i t = t.id == i

-- The row that issue inserts.
abbrev pub issue_row : Hasher → ℕ → ℕ → String → ℕ → String → String → Option ℕ → Token
issue_row h rowid now plaintext client_id label scope expires_at = record {
  id = rowid;
  token_hash = h.hash plaintext;
  client_id = client_id;
  label = label;
  scope = scope;
  created_at = now;
  expires_at = expires_at;
  last_used_at = none;
  revoked_at = none;
}

-- `plaintext` is the 32 random bytes in hex that `secrets` gives.
unfoldable pub issue :
    Hasher → ℕ → ℕ → String → ℕ → String → String → Option ℕ → List Token → List Token × String × ℕ
issue h rowid now plaintext client_id label scope expires_at rows = (
  rows ++ issue_row h rowid now plaintext client_id label scope expires_at ∷ [],
  plaintext,
  rowid,
)

abbrev pub is_expired : ℕ → Option ℕ → Bool
is_expired now none = false
is_expired now (some t) = leb t now

-- The loop of verify over the rows that are not revoked: the first row whose hash matches.
unfoldable pub search_rows : Hasher → ℕ → String → List Token → Result Error (Option Token)
search_rows h now plaintext [] = ok none
search_rows h now plaintext (t ∷ ts) =
    let rest = search_rows h now plaintext ts in
    if is_expired now t.expires_at then rest else elim (h.check t.token_hash plaintext) [
      | matches ↦ ok (some t)
      | mismatch ↦ rest
      | invalid_hash ↦ err hash_error
    ]

abbrev pub info_of : Token → TokenInfo
info_of t = record { id = t.id; client_id = t.client_id; scope = t.scope; label = t.label }

abbrev pub used : ℕ → Token → Token
used now t = record t { last_used_at = some now }

-- What follows the loop: the row found is stamped.
unfoldable pub stamp : ℕ → Option Token → List Token → List Token × Option TokenInfo
stamp now none rows = (rows, none)
stamp now (some t) rows = (update (by_id t.id) (used now) rows, some (info_of t))

abbrev pub not_revoked : Token → Bool
not_revoked t = not (is_some t.revoked_at)

unfoldable pub verify :
    Hasher → ℕ → String → List Token → Result Error (List Token × Option TokenInfo)
unfolding stamp search_rows
verify h now plaintext rows =
    if is_empty plaintext || ltb (size plaintext) 16
    then ok (rows, none)
    else do found ← search_rows h now plaintext (select not_revoked rows); ok (stamp now found rows)

abbrev pub revoked : ℕ → Token → Token
revoked now t = record t { revoked_at = some now }

unfoldable pub revoke : ℕ → ℕ → List Token → List Token
revoke now i = update (by_id i) (revoked now)

unfoldable pub list_active : ℕ → List Token → List Token
list_active client_id rows =
    sort_by (downwards (λ t. t.created_at))
      (select (λ t. t.client_id == client_id && not_revoked t) rows)
