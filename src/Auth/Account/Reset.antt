-- ===== src/Auth/Account/Reset.antt =====
-- What a reset of a password leaves.
use snapshot_drive.Prelude.{
  ℕ, String, ◌≡◌, refl, sym, ap, ◌∙◌, subst, Bool, true, false, none, some, List, arith, inl, inr,
  Result, ok, err, Result-cases, Option-cases, ◌==◌,
}
use snapshot_drive.Prelude.Table.{find, find-update_found, find_sound, find-delete_self, update}
use snapshot_drive.Auth.Rows.{User, OldPassword, user_with}
use snapshot_drive.Auth.Db.{Db}
use snapshot_drive.Auth.Audit.{Meta}
use snapshot_drive.Auth.Account.{
  Hashing, Reply, done, raised, refused, after_reset, stored, accepts_new, reset_for, reset_consume,
}
use snapshot_drive.Auth.ResetTokens.{consume_reset_token}
use snapshot_drive.Auth.ResetTokens.OneShot.{consume_once}
use snapshot_drive.Auth.Sessions.{revoke_user_sessions}
use snapshot_drive.Auth.Users.{UserError, update_password, get_user_by_id}

abbrev pub is_done : Reply → Bool
is_done done = true
is_done _ = false

abbrev pub is_raised : Reply → Bool
is_raised raised = true
is_raised _ = false

-- The user with a new password.
abbrev pub with_password : ℕ → String → User → User
with_password now new_hash u = record u { password_hash = new_hash; updated_at = now }

pub find-update_password :
    (now now' i : ℕ) (new_hash : String) (u : User) (users : List User) (history : List OldPassword)
    → find (user_with i) users ≡ some u
    → find (user_with i) (update_password now now' i new_hash users history).0
      ≡ some (with_password now new_hash u)
unfolding update_password
find-update_password now now' i new_hash u users history there =
    let changed : (update_password now now' i new_hash users history).0
        ≡ update (user_with i) (with_password now new_hash) users =
      ground arith in
    ap (find (user_with i)) changed
    ∙ find-update_found (user_with i) (with_password now new_hash) users (λ x. refl) there

module _ (h : Hashing) (t : ℕ → ℕ) (meta : Meta) (new : String) where
  -- The password of the user is the new one, which the policy and the history accept, and the user
  -- has no session left.
  abbrev pub IsReset : User → Db → Db → Type 0
  IsReset u db db' =
      (accepts_new h new u db ≡ ok tt)
      × (find (user_with u.id) db'.users ≡ some (with_password (t 2) h.new_hash u))
      × (find (λ s. s.user_id == u.id) db'.sessions ≡ none)

  -- A reset that is done, one that is refused, and the tokens, which it does not touch.
  abbrev pub IsOutcome : User → Db → Db × Reply → Type 0
  IsOutcome u db r =
      (is_done r.1 ≡ true → IsReset u db r.0)
      × (is_done r.1 ≡ false
          → is_raised r.1 ≡ false
          → (r.0.users ≡ db.users) × (r.0.sessions ≡ db.sessions) × (r.0.history ≡ db.history))
      × (r.0.resets ≡ db.resets)

  stored-IsOutcome :
      (u : User) (db : Db) (p : List User × Result UserError (List OldPassword))
      → accepts_new h new u db ≡ ok tt
      → find (user_with u.id) p.0 ≡ some (with_password (t 2) h.new_hash u)
      → IsOutcome u db (stored p (after_reset h t meta u) db)
  unfolding revoke_user_sessions
  stored-IsOutcome u db (users, err e) good there = (λ x. cc, λ x y. cc, refl)
  stored-IsOutcome u db (users, ok history) good there =
      (λ x. (good, there, find-delete_self (λ s. s.user_id == u.id) db.sessions), λ x y. cc, refl)

  reset_for-IsOutcome :
      (u : User) (db : Db)
      → find (user_with u.id) db.users ≡ some u
      → IsOutcome u db (reset_for h t meta new (some u) db)
  unfolding reset_for
  reset_for-IsOutcome u db there = elim (Result-cases (accepts_new h new u db)) [
    | inr (e, bad) ↦
        let same : reset_for h t meta new (some u) db ≡ (db, refused e) =
          rw (reset_for, bad) refl in
        subst (IsOutcome u db) (sym same) (λ x. cc, λ x y. (refl, refl, refl), refl)
    | inl (_, good) ↦
        let p = update_password (t 2) (t 3) u.id h.new_hash db.users db.history in
        let same : reset_for h t meta new (some u) db ≡ stored p (after_reset h t meta u) db =
          rw (reset_for, good) refl in
        let kept = find-update_password (t 2) (t 3) u.id h.new_hash u db.users db.history there in
        subst (IsOutcome u db) (sym same) (stored-IsOutcome u db p good kept)
  ]

-- A reset that is done was asked for with a live token of a user of the table, by a password that
-- the policy and the user's history accept; that password is now the user's, and the user has no
-- session left. Every reply but an exception and this one leaves users, sessions and history as
-- they were. A token that named a user is used up, whatever the reply, so that a password which is
-- refused takes a new token.
pub reset_consume_lem :
    (h : Hashing) (t : ℕ → ℕ) (meta : Meta) (token new : String) (db : Db)
    → let (db', r) = reset_consume h t meta token new db in
      let named = (consume_reset_token h.digest token (t 0) (t 1) db.resets).1 in
      (is_done r ≡ true
        → (u : User) × (named ≡ some u.id)
          × (find (user_with u.id) db.users ≡ some u)
          × IsReset h t meta new u db db')
      × (is_done r ≡ false
          → is_raised r ≡ false
          → (db'.users ≡ db.users) × (db'.sessions ≡ db.sessions) × (db'.history ≡ db.history))
      × ((i s s' : ℕ)
          → named ≡ some i
          → (consume_reset_token h.digest token s s' db'.resets).1 ≡ none)
unfolding reset_consume reset_for accepts_new
reset_consume_lem h t meta token new db =
    elim (Option-cases (consume_reset_token h.digest token (t 0) (t 1) db.resets).1) [
      | inl unknown ↦
          rw (reset_consume, unknown) (λ x. cc, λ x y. (refl, refl, refl), λ i s s' x. cc)
      | inr (i, live) ↦ elim (Option-cases (get_user_by_id i db.users)) [
        | inl gone ↦
            rw (reset_consume, live, gone, reset_for)
              (
                λ x. cc,
                λ x y. (refl, refl, refl),
                λ j s s' x. consume_once h.digest token (t 0) (t 1) s s' i db.resets live,
              )
        | inr (u, there) ↦
            let resets = (consume_reset_token h.digest token (t 0) (t 1) db.resets).0 in
            let own : i ≡ u.id = ground (arith, find_sound (user_with i) db.users there) in
            let mine : find (user_with u.id) db.users ≡ some u =
              subst (λ j. find (user_with j) db.users ≡ some u) own there in
            let (good, bad, kept) =
              reset_for-IsOutcome h t meta new u (record db { resets = resets }) mine in
            rw (reset_consume, live, there)
              (
                λ x. (u, ap some own, mine, good x),
                bad,
                λ j s s' x.
                    ap (λ rows. (consume_reset_token h.digest token s s' rows).1) kept
                    ∙ consume_once h.digest token (t 0) (t 1) s s' i db.resets live,
              )
      ]
    ]
