-- ===== src/Auth/Sessions.antt =====
-- backend/auth/sessions.py: server-side sessions. `now` is the clock reading of the call.
use snapshot_drive.Prelude.{
  ℕ, ◌+◌, ◌-◌, ◌*◌, String, Bool, true, ◌||◌, Option, none, some, List, [], ◌∷◌, ◌++◌, ltb, leb,
  ◌==◌, if◌then◌else◌,
}
pub mod Lifetime
pub mod Revoking
use snapshot_drive.Auth.Rows.{Session, session_with, hour, minute}
use snapshot_drive.Prelude.Table.{delete, find, update, count}

abbrev pub session_ttl : ℕ
session_ttl = 8 * hour

abbrev pub idle_timeout : ℕ
idle_timeout = 480 * minute

abbrev pub sliding_threshold : ℕ
sliding_threshold = 2 * hour

-- `sid` and `csrf` are the two random texts that `secrets` gives.
abbrev pub new_session : String → String → ℕ → ℕ → Option String → Option String → Bool → Session
new_session sid csrf now user_id ip user_agent mfa_verified = record {
  id = sid;
  user_id = user_id;
  created_at = now;
  last_seen_at = now;
  expires_at = now + session_ttl;
  ip = ip;
  user_agent = user_agent;
  csrf_token = csrf;
  mfa_verified = mfa_verified;
}

unfoldable pub create_session :
    String
    → String
    → ℕ
    → ℕ
    → Option String
    → Option String
    → Bool
    → List Session
    → List Session × Session
create_session sid csrf now user_id ip user_agent mfa_verified rows =
    let s = new_session sid csrf now user_id ip user_agent mfa_verified in (rows ++ s ∷ [], s)

unfoldable pub revoke_session : String → List Session → List Session
revoke_session sid = delete (session_with sid)

unfoldable pub revoke_user_sessions : ℕ → List Session → List Session
revoke_user_sessions user_id = delete (λ s. s.user_id == user_id)

-- The two tests of load_session on the row that it found.
unfoldable pub is_stale : ℕ → Session → Bool
is_stale now s = leb s.expires_at now || ltb idle_timeout (now - s.last_seen_at)

unfoldable pub load_found :
    ℕ → String → Option Session → List Session → List Session × Option Session
unfolding is_stale revoke_session
load_found now sid none rows = (rows, none)
load_found now sid (some s) rows =
    if is_stale now s then (revoke_session sid rows, none) else (rows, some s)

unfoldable pub load_session : ℕ → String → List Session → List Session × Option Session
unfolding load_found
load_session now sid rows = load_found now sid (find (session_with sid) rows) rows

-- expires - now < 2h, where the expiry may have passed
unfoldable pub refreshed : ℕ → ℕ → Session → Session
refreshed now expires s =
    if ltb expires (now + sliding_threshold)
    then record s { last_seen_at = now; expires_at = now + session_ttl }
    else record s { last_seen_at = now }

unfoldable pub refresh_session : ℕ → String → List Session → List Session
refresh_session now sid rows = elim (find (session_with sid) rows) [
  | none ↦ rows
  | some s ↦ update (session_with sid) (refreshed now s.expires_at) rows
]

abbrev pub verified : Session → Session
verified s = record s { mfa_verified = true }

unfoldable pub mark_mfa_verified : String → List Session → List Session
mark_mfa_verified sid = update (session_with sid) verified

abbrev pub has_expired : ℕ → Session → Bool
has_expired now s = leb s.expires_at now

-- The rows that stay, and how many were removed.
unfoldable pub cleanup_expired : ℕ → List Session → List Session × ℕ
cleanup_expired now rows = (delete (has_expired now) rows, count (has_expired now) rows)
