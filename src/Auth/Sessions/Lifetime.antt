-- ===== src/Auth/Sessions/Lifetime.antt =====
-- How long a session lives.
use snapshot_drive.Prelude.{
  ℕ, ◌+◌, ◌≤◌, ◌<◌, ◌∙◌, refl, true, false, none, String, ◌≡◌, Bool, Option, List, arith, [], All,
  All-append, ◌∷◌, some, Option-cases, inl, inr,
}
use snapshot_drive.Auth.Rows.{Session, session_with}
use snapshot_drive.Auth.Sessions.{
  session_ttl, refreshed, is_stale, create_session, has_expired, load_session, refresh_session,
  revoke_session, mark_mfa_verified, revoke_user_sessions, cleanup_expired, verified, load_found,
}
use snapshot_drive.Prelude.Table.{find, All-find, All-update, All-delete, delete}
use snapshot_drive.Auth.Sessions.Revoking.{load_session-All}

-- A session whose expiry is at most the time to live after it was last seen, which was not in the
-- future.
abbrev pub IsFresh : ℕ → Session → Type 0
IsFresh now s = (s.expires_at ≤ s.last_seen_at + session_ttl) × (s.last_seen_at ≤ now)

refreshed-IsFresh :
    (now expires : ℕ) (s : Session) → IsFresh now s → IsFresh now (refreshed now expires s)
unfolding refreshed
refreshed-IsFresh now expires s h = ground arith

is_stale-has_expired : (now : ℕ) (s : Session) → IsFresh now s → is_stale now s ≡ has_expired now s
unfolding is_stale
is_stale-has_expired now s h = ground arith

-- An operation on the sessions.
pub data Event : Type 0 where
  creating : String → String → ℕ → Option String → Option String → Bool → Event
  loading refreshing revoking verifying : String → Event
  revoking_user : ℕ → Event
  cleaning : Event

-- The operation at a time.
unfoldable pub apply : ℕ → Event → List Session → List Session
apply now (creating sid csrf user ip agent mfa) rows =
    (create_session sid csrf now user ip agent mfa rows).0
apply now (loading sid) rows = (load_session now sid rows).0
apply now (refreshing sid) rows = refresh_session now sid rows
apply now (revoking sid) rows = revoke_session sid rows
apply now (verifying sid) rows = mark_mfa_verified sid rows
apply now (revoking_user i) rows = revoke_user_sessions i rows
apply now cleaning rows = (cleanup_expired now rows).0

-- The tables that operations in the order of the clock lead to, each with the time of the last.
pub data Reach : ℕ → List Session → Type 0 where
  start : (t : ℕ) → Reach t []
  next :
      {t now : ℕ} {rows rows' : List Session} (e : Event)
      → Reach t rows
      → t ≤ now
      → rows' ≡ apply now e rows
      → Reach now rows'

later : (t now : ℕ) (rows : List Session) → t ≤ now → All (IsFresh t) rows → All (IsFresh now) rows
later t now [] le h = tt
later t now (s ∷ rows) le h = (omega arith, later t now rows le h.1)

apply-IsFresh :
    (now : ℕ) (e : Event) (rows : List Session)
    → All (IsFresh now) rows
    → All (IsFresh now) (apply now e rows)
unfolding apply create_session revoke_session revoke_user_sessions mark_mfa_verified cleanup_expired
apply-IsFresh now (creating sid csrf user ip agent mfa) rows h =
    All-append (IsFresh now) rows _ h ((omega arith, omega arith), tt)
apply-IsFresh now (loading sid) rows h = load_session-All (IsFresh now) now sid rows h
apply-IsFresh now (refreshing sid) rows h = elim (Option-cases (find (session_with sid) rows)) [
  | inl absent ↦ unfold refresh_session in rw (absent, refresh_session) h
  | inr (s, there) ↦
      unfold refresh_session in
      rw (there, refresh_session)
        (All-update (IsFresh now) (session_with sid) _ rows
          (λ r _ f. refreshed-IsFresh now s.expires_at r f) h)
]
apply-IsFresh now (revoking sid) rows h = All-delete (IsFresh now) (session_with sid) rows h
apply-IsFresh now (verifying sid) rows h =
    All-update (IsFresh now) (session_with sid) verified rows (λ r _ f. f) h
apply-IsFresh now (revoking_user i) rows h = All-delete (IsFresh now) _ rows h
apply-IsFresh now cleaning rows h = All-delete (IsFresh now) (has_expired now) rows h

-- Whatever operations led to the table, in the order of the clock, every session expires at the
-- latest eight hours after it was last seen, and was not last seen in the future.
pub Reach-IsFresh : {t : ℕ} {rows : List Session} → Reach t rows → All (IsFresh t) rows
Reach-IsFresh (start t) = tt
Reach-IsFresh (next {t} {now} {rows} e r le eq) =
    rw eq (apply-IsFresh now e rows (later t now rows le (Reach-IsFresh r)))

-- The idle timeout never decides: at any later time, load_session removes a session of a reachable
-- table and returns nothing if its expiry has come, and else returns it and leaves the table,
-- since the timeout is as long as the time to live.
pub Reach-idle_timeout :
    {t : ℕ} {rows : List Session} (now : ℕ) (sid : String) {s : Session}
    → Reach t rows
    → t ≤ now
    → find (session_with sid) rows ≡ some s
    → (is_stale now s ≡ has_expired now s)
      × (s.expires_at ≤ now → load_session now sid rows ≡ (delete (session_with sid) rows, none))
      × (now < s.expires_at → load_session now sid rows ≡ (rows, some s))
unfolding load_session load_found revoke_session
Reach-idle_timeout {t} {rows} now sid {s} r le there =
    let same : is_stale now s ≡ has_expired now s = is_stale-has_expired now s (
      All-find (IsFresh now) (session_with sid) rows (later t now rows le (Reach-IsFresh r))
        there) in
    (
      same,
      λ h.
          let ended : is_stale now s ≡ true = same ∙ ground arith in
          rw (there, load_found) (rw ended refl),
      λ h.
          let lives : is_stale now s ≡ false = same ∙ ground arith in
          rw (there, load_found) (rw lives refl),
    )
