-- ===== src/Auth/Account/Change.antt =====
-- What a change of the own password asks for and leaves.
use snapshot_drive.Prelude.{
  ℕ, String, ◌≡◌, refl, sym, subst, true, false, some, List, inl, inr, Result, ok, err,
  Result-cases, Bool-cases, Option-cases,
}
use snapshot_drive.Prelude.Table.{find}
use snapshot_drive.Auth.Rows.{User, OldPassword, user_with}
use snapshot_drive.Auth.Db.{Db}
use snapshot_drive.Auth.Audit.{Meta}
use snapshot_drive.Auth.Middleware.{Context}
use snapshot_drive.Auth.Passwords.{verify_password}
use snapshot_drive.Auth.Account.{
  Hashing, Reply, stored, after_change, accepts_new, change_of, password_change, refused, unchanged,
}
use snapshot_drive.Auth.Account.Reset.{is_done, is_raised, with_password, find-update_password}
use snapshot_drive.Auth.Users.{UserError, update_password}

module _ (h : Hashing) (t : ℕ → ℕ) (meta : Meta) (current new : String) where
  -- What the handler has checked of the current user, and what it leaves.
  abbrev pub IsChange : User → Db → Db → Type 0
  IsChange u db db' =
      (verify_password h.check current u.password_hash ≡ true)
      × (accepts_new h new u db ≡ ok tt)
      × (verify_password h.check new u.password_hash ≡ false)
      × ((v : User)
          → find (user_with u.id) db.users ≡ some v
          → find (user_with u.id) db'.users ≡ some (with_password (t 0) h.new_hash v))
      × (db'.sessions ≡ db.sessions)

  abbrev pub IsOutcome : User → Db → Db × Reply → Type 0
  IsOutcome u db r =
      (is_done r.1 ≡ true → IsChange u db r.0)
      × (is_done r.1 ≡ false → is_raised r.1 ≡ false → r.0 ≡ db)

  stored-IsOutcome :
      (u : User) (db : Db) (p : List User × Result UserError (List OldPassword))
      → verify_password h.check current u.password_hash ≡ true
      → accepts_new h new u db ≡ ok tt
      → verify_password h.check new u.password_hash ≡ false
      → ((v : User)
          → find (user_with u.id) db.users ≡ some v
          → find (user_with u.id) p.0 ≡ some (with_password (t 0) h.new_hash v))
      → IsOutcome u db (stored p (after_change h t meta u) db)
  stored-IsOutcome u db (users, err e) a b c d = (λ x. cc, λ x y. cc)
  stored-IsOutcome u db (users, ok history) a b c d = (λ x. (a, b, c, d, refl), λ x y. cc)

  change_of-IsOutcome : (u : User) (db : Db) → IsOutcome u db (change_of h t meta current new u db)
  unfolding change_of
  change_of-IsOutcome u db = elim (Bool-cases (verify_password h.check current u.password_hash)) [
    | inr wrong ↦ rw (change_of, wrong) (λ x. cc, λ x y. refl)
    | inl right ↦ elim (Result-cases (accepts_new h new u db)) [
      | inr (e, bad) ↦
          let same : change_of h t meta current new u db ≡ (db, refused e) =
            rw (change_of, right, bad) refl in
          subst (IsOutcome u db) (sym same) (λ x. cc, λ x y. refl)
      | inl (_, good) ↦ elim (Bool-cases (verify_password h.check new u.password_hash)) [
        | inl equal ↦
            let same : change_of h t meta current new u db ≡ (db, unchanged) =
              rw (change_of, right, good, equal) refl in
            subst (IsOutcome u db) (sym same) (λ x. cc, λ x y. refl)
        | inr other ↦
            let p = update_password (t 0) (t 1) u.id h.new_hash db.users db.history in
            let same : change_of h t meta current new u db ≡ stored p (after_change h t meta u) db =
              rw (change_of, right, good, other) refl in
            subst (IsOutcome u db) (sym same) (
              stored-IsOutcome u db p right good other
                (λ v. find-update_password (t 0) (t 1) u.id h.new_hash v db.users db.history))
      ]
    ]
  ]

-- A change that is done is that of the signed-in user, who gave the current password and a new one
-- that differs from it and that the policy and the history accept; the user's row then has the new
-- hash, and no session ends, neither this one nor another of the user. After every other reply but
-- an exception nothing has changed.
pub password_change_lem :
    (h : Hashing) (t : ℕ → ℕ) (meta : Meta) (current new : String) (g : Context) (db : Db)
    → let (db', r) = password_change h t meta current new g db in
      (is_done r ≡ true
        → (u : User) × (g.current_user ≡ some u) × IsChange h t meta current new u db db')
      × (is_done r ≡ false → is_raised r ≡ false → db' ≡ db)
unfolding password_change
password_change_lem h t meta current new g db = elim (Option-cases g.current_user) [
  | inl nobody ↦ rw (password_change, nobody) (λ x. cc, λ x y. refl)
  | inr (u, there) ↦
      let (good, bad) = change_of-IsOutcome h t meta current new u db in
      rw (password_change, there) (λ x. (u, refl, good x), bad)
]
