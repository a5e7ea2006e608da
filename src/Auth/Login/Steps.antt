-- ===== src/Auth/Login/Steps.antt =====
-- What the parts of the login handler do to the tables: a session is opened in one place only, and
-- the second factor is asked for before it.
use snapshot_drive.Prelude.{
  ℕ, String, ◌≡◌, refl, inl, inr, Bool, true, false, not, ◌&&◌, ◌||◌, [], ◌∷◌, ◌++◌, Bool-cases,
}
use snapshot_drive.Auth.Rows.{User, Session}
use snapshot_drive.Auth.Db.{Db}
use snapshot_drive.Auth.Users.{is_member}
use snapshot_drive.Auth.Sessions.{create_session}
use snapshot_drive.Auth.Mfa.{
  Secret, no_secret, not_decrypted, secret, verify_totp, consume_backup_code, get_user_secret,
  has_secret, is_code,
}
use snapshot_drive.Auth.Login.{
  Services, Login, Reply, invalid_credentials, server_error, require_mfa_enroll, require_mfa,
  logged_in, try_backup_code, check_code, challenge, second_factor, mfa_required_roles,
}
use snapshot_drive.Prelude.Text.{is_empty}

-- The secret verifies the code as a one-time code.
abbrev pub verifies : Services → String → Secret → Bool
verifies svc code (secret s) = verify_totp svc.totp s code
verifies svc code _ = false

-- The code of the request is a one-time code or a backup code of the user.
abbrev pub proves_factor : Services → (ℕ → ℕ) → Login → User → Db → Bool
proves_factor svc t req u db =
    verifies svc req.mfa_code (get_user_secret svc.decrypt u.id db.users)
    || (consume_backup_code svc.check (t 0) u.id req.mfa_code db.codes).1

-- The reply opens a session, with the second factor if it was asked for, or none is opened.
abbrev pub IsOutcome : Bool → Bool → User → Db → Db × Reply → Type 0
IsOutcome mfa proved u db (db', logged_in role name s) =
    (db'.sessions ≡ db.sessions ++ s ∷ [])
    × (s.user_id ≡ u.id)
    × (s.mfa_verified ≡ mfa)
    × (mfa ≡ true → proved ≡ true)
IsOutcome mfa proved u db (db', invalid_credentials) = db'.sessions ≡ db.sessions
IsOutcome mfa proved u db (db', server_error) = db'.sessions ≡ db.sessions
IsOutcome mfa proved u db (db', require_mfa_enroll e) = db'.sessions ≡ db.sessions
IsOutcome mfa proved u db (db', require_mfa e) = db'.sessions ≡ db.sessions

module _ (svc : Services) (sid csrf : String) (t : ℕ → ℕ) (req : Login) (email : String) where
  try_backup_code-IsOutcome :
      (p : Bool) (u : User) (db : Db)
      → ((consume_backup_code svc.check (t 0) u.id req.mfa_code db.codes).1 ≡ true → p ≡ true)
      → IsOutcome true p u db (try_backup_code svc sid csrf t req email u db)
  unfolding try_backup_code create_session
  try_backup_code-IsOutcome p u db proof =
      elim (Bool-cases (consume_backup_code svc.check (t 0) u.id req.mfa_code db.codes).1) [
        | inl hit ↦ rw hit (refl, refl, refl, λ h. proof hit)
        | inr miss ↦ rw miss refl
      ]

  check_code-IsOutcome :
      (u : User) (db : Db) (s : Secret)
      → let p =
          verifies svc req.mfa_code s
          || (consume_backup_code svc.check (t 0) u.id req.mfa_code db.codes).1 in
        IsOutcome true p u db (check_code svc sid csrf t req email u db s)
  unfolding check_code create_session
  check_code-IsOutcome u db not_decrypted = refl
  check_code-IsOutcome u db no_secret = elim (Bool-cases (is_code req.mfa_code)) [
    | inl code ↦ rw code refl
    | inr other ↦ rw other (try_backup_code-IsOutcome _ u db (λ h. h))
  ]
  check_code-IsOutcome u db (secret s) = elim (Bool-cases (verify_totp svc.totp s req.mfa_code)) [
    | inl valid ↦ rw valid (refl, refl, refl, λ h. refl)
    | inr wrong ↦ rw wrong (try_backup_code-IsOutcome _ u db (λ h. h))
  ]

  challenge-IsOutcome :
      (u : User) (db : Db)
      → IsOutcome true (proves_factor svc t req u db) u db (challenge svc sid csrf t req email u db)
  unfolding challenge
  challenge-IsOutcome u db = elim (Bool-cases (is_empty req.mfa_code)) [
    | inl absent ↦ rw absent refl
    | inr given ↦ rw given (check_code-IsOutcome u db (get_user_secret svc.decrypt u.id db.users))
  ]

  pub second_factor-IsOutcome :
      (u : User) (db : Db)
      → IsOutcome
          (has_secret u && not u.mfa_disabled)
          (proves_factor svc t req u db)
          u
          db
          (second_factor svc sid csrf t req email u db)
  unfolding second_factor create_session
  second_factor-IsOutcome u db =
      elim (Bool-cases
        (is_member u.role mfa_required_roles && (not (has_secret u) && not u.mfa_disabled))) [
          | inl enroll ↦ rw enroll refl
          | inr no_need ↦ elim (Bool-cases (has_secret u && not u.mfa_disabled)) [
            | inl asked ↦ rw (no_need, asked) (challenge-IsOutcome u db)
            | inr plain ↦ rw (no_need, plain) (refl, refl, refl, λ h. cc)
          ]
        ]

  -- No session is opened for a user who has to enroll first.
  pub second_factor_enrolled :
      (u : User) (db : Db) {role name : String} {s : Session}
      → (second_factor svc sid csrf t req email u db).1 ≡ logged_in role name s
      → (is_member u.role mfa_required_roles && (not (has_secret u) && not u.mfa_disabled)) ≡ false
  unfolding second_factor
  second_factor_enrolled u db done =
      elim (Bool-cases
        (is_member u.role mfa_required_roles && (not (has_secret u) && not u.mfa_disabled))) [
          | inl enroll ↦
              let e : (second_factor svc sid csrf t req email u db).1 ≡ require_mfa_enroll u.email =
                rw enroll refl in
              cc
          | inr no_need ↦ no_need
        ]
