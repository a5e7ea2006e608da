-- ===== src/Auth/Sessions/Revoking.antt =====
-- What loading and refreshing a session give, and that a revoked session is gone.
use snapshot_drive.Prelude.{
  ℕ, ◌+◌, ◌-◌, ◌≤◌, ◌<◌, String, ◌≡◌, refl, ◌∙◌, subst, inl, inr, false, Option, none, some, List,
  arith, ◌==◌, Bool-cases, Option-cases, All,
}
use snapshot_drive.Auth.Rows.{Session, session_with}
use snapshot_drive.Auth.Sessions.{
  load_found, load_session, is_stale, revoke_session, idle_timeout, refresh_session,
  revoke_user_sessions, sliding_threshold, refreshed,
}
use snapshot_drive.Prelude.Table.{
  find, All-delete, find-delete_self, find-update, find_sound, All-find, delete, All-delete_self,
  find-delete_kept,
}

load_found-All :
    (P : Session → Type 0) (now : ℕ) (sid : String) (found : Option Session) (rows : List Session)
    → All P rows
    → All P (load_found now sid found rows).0
unfolding load_found
load_found-All P now sid none rows h = h
load_found-All P now sid (some s) rows h = elim (Bool-cases (is_stale now s)) [
  | inl old ↦ rw (old, load_found) (unfold revoke_session in All-delete P (session_with sid) rows h)
  | inr live ↦ rw (live, load_found) h
]

-- Loading keeps what holds of every session.
pub load_session-All :
    (P : Session → Type 0) (now : ℕ) (sid : String) (rows : List Session)
    → All P rows
    → All P (load_session now sid rows).0
unfolding load_session
load_session-All P now sid rows h = load_found-All P now sid (find (session_with sid) rows) rows h

live_session :
    (now : ℕ) (s : Session)
    → is_stale now s ≡ false
    → (now < s.expires_at) × (now - s.last_seen_at ≤ idle_timeout)
unfolding is_stale
live_session now s live = (ground arith, ground arith)

-- A session that load_session returns is the one with the id, its expiry is in the future and it
-- was seen within the idle timeout; where it returns none, no session with the id is left.
pub load_session_lem :
    (now : ℕ) (sid : String) (rows : List Session)
    → ((s : Session)
        → (load_session now sid rows).1 ≡ some s
        → (find (session_with sid) rows ≡ some s)
          × (now < s.expires_at)
          × (now - s.last_seen_at ≤ idle_timeout)
          × ((load_session now sid rows).0 ≡ rows))
      × ((load_session now sid rows).1 ≡ none
          → find (session_with sid) (load_session now sid rows).0 ≡ none)
unfolding load_session is_stale revoke_session
load_session_lem now sid rows = elim (Option-cases (find (session_with sid) rows)) [
  | inl absent ↦ rw (absent, load_session) (λ s e. cc, λ e. absent)
  | inr (s, there) ↦
      rw (there, load_session)
        (elim (Bool-cases (is_stale now s)) [
          | inl old ↦
              rw (old, load_found) (λ r e. cc, λ e. find-delete_self (session_with sid) rows)
          | inr live ↦
              rw (live, load_found)
                (
                  λ r e.
                      let same : s ≡ r = cc in
                      let fresh =
                        subst (λ x. (now < x.expires_at) × (now - x.last_seen_at ≤ idle_timeout))
                          same (live_session now s live) in
                      (e, fresh.0, fresh.1, refl),
                  λ e. cc,
                )
        ])
]

session_with-refreshed :
    (sid : String) (now expires : ℕ) (s : Session)
    → session_with sid (refreshed now expires s) ≡ session_with sid s
unfolding refreshed
session_with-refreshed sid now expires s = ground arith

load_session_live :
    (now : ℕ) (sid : String) (rows : List Session) {s : Session}
    → find (session_with sid) rows ≡ some s
    → now < s.expires_at
    → now - s.last_seen_at ≤ idle_timeout
    → (load_session now sid rows).1 ≡ some s
unfolding load_session
load_session_live now sid rows {s} there fresh seen =
    let live : is_stale now s ≡ false = unfold is_stale in ground arith in
    rw (there, load_session) (rw (live, load_found) refl)

-- A refresh moves the last sight to now and never takes time away: the session lasts at least the
-- sliding threshold from now on, and as long as before.
pub refresh_session_lem :
    (now : ℕ) (sid : String) (rows : List Session) {s : Session}
    → find (session_with sid) rows ≡ some s
    → (r : Session) × (find (session_with sid) (refresh_session now sid rows) ≡ some r)
      × (r.last_seen_at ≡ now)
      × (s.expires_at ≤ r.expires_at)
      × (now + sliding_threshold ≤ r.expires_at)
      × (r.user_id ≡ s.user_id)
      × (r.mfa_verified ≡ s.mfa_verified)
unfolding refresh_session
refresh_session_lem now sid rows {s} there = (
  refreshed now s.expires_at s,
  rw (there, refresh_session)
      (find-update (session_with sid) (session_with sid) (refreshed now s.expires_at) rows
          (session_with-refreshed sid now s.expires_at)
        ∙ rw there (rw (find_sound (session_with sid) rows there))),
  unfold refreshed in ground arith,
  unfold refreshed in ground arith,
  unfold refreshed in ground arith,
  unfold refreshed in ground arith,
  unfold refreshed in ground arith,
)

-- After a user's sessions are revoked, loading any session never gives one of that user, while
-- each session of another user that loaded before still loads.
pub revoke_user_sessions_lem :
    (now user_id : ℕ) (sid : String) (rows : List Session) (s : Session)
    → ((load_session now sid (revoke_user_sessions user_id rows)).1 ≡ some s
        → (s.user_id == user_id) ≡ false)
      × ((load_session now sid rows).1 ≡ some s
          → (s.user_id == user_id) ≡ false
          → (load_session now sid (revoke_user_sessions user_id rows)).1 ≡ some s)
unfolding revoke_user_sessions
revoke_user_sessions_lem now user_id sid rows s = (
  λ e.
      let found = ((load_session_lem now sid (revoke_user_sessions user_id rows)).0 s e).0 in
      All-find (λ r. (r.user_id == user_id) ≡ false) (session_with sid)
        (delete (λ r. r.user_id == user_id) rows) (All-delete_self (λ r. r.user_id == user_id) rows)
        found,
  λ e other.
      let known = (load_session_lem now sid rows).0 s e in
      load_session_live now sid _
        (find-delete_kept (session_with sid) (λ r. r.user_id == user_id) rows known.0 other) known.1
        known.2,
)
