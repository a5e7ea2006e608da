-- ===== src/Auth/Enrolment/Confirmed.antt =====
-- Whom the enrolment lets in, and what it leaves.
use snapshot_drive.Prelude.{
  ℕ, String, ◌≡◌, refl, inl, inr, Bool, true, false, not, ◌&&◌, Option, none, some, List, [], ◌∷◌,
  ◌++◌, arith, Bool-cases, Option-cases, if◌then◌else◌, str_eq,
}
use snapshot_drive.Prelude.Text.{is_empty, lower, strip}
use snapshot_drive.Auth.Rows.{User, Session}
use snapshot_drive.Auth.Db.{Db}
use snapshot_drive.Auth.Audit.{Meta}
use snapshot_drive.Auth.Lockout.{is_locked}
use snapshot_drive.Auth.Login.{Services}
use snapshot_drive.Auth.Mfa.{has_secret, verify_totp}
use snapshot_drive.Auth.Passwords.{verify_password}
use snapshot_drive.Auth.Users.{get_user_by_email}
use snapshot_drive.Auth.Sessions.{new_session, create_session}
use snapshot_drive.Auth.Enrolment.{
  Reply, enrolled, Confirmation, enrol, confirm_for, confirm_found, mfa_enroll_confirm,
}

abbrev pub is_enrolled : Reply → Bool
is_enrolled (enrolled s) = true
is_enrolled _ = false

-- The user of the request's address.
abbrev pub enrolling : Confirmation → Db → Option User
enrolling req db =
    if is_empty (lower (strip req.email))
    then none
    else get_user_by_email (lower (strip req.email)) db.users

-- The user may enrol with what the request brings.
abbrev pub may_enrol : Services → (ℕ → ℕ) → Confirmation → User → Db → Bool
may_enrol svc t req u db =
    str_eq u.status "active"
    && (not (is_locked (t 0) u.id db.users)
        && (verify_password svc.check req.password u.password_hash
            && (not (has_secret u) && verify_totp svc.totp req.secret req.code)))

module _ (svc : Services) (encrypted : String) (hashes : List String) (sid csrf : String)
    (t : ℕ → ℕ) (meta : Meta) (req : Confirmation) where
  confirm_for_allowed :
      (u : User) (db : Db)
      → may_enrol svc t req u db ≡ true
      → confirm_for svc encrypted hashes sid csrf t meta req u db
        ≡ enrol svc encrypted hashes sid csrf t meta req u db
  unfolding confirm_for
  confirm_for_allowed u db may = ground arith

  confirm_for_refused :
      (u : User) (db : Db)
      → may_enrol svc t req u db ≡ false
      → let (db', r) = confirm_for svc encrypted hashes sid csrf t meta req u db in
        (is_enrolled r ≡ false) × (db'.sessions ≡ db.sessions) × (db'.codes ≡ db.codes)
  unfolding confirm_for
  confirm_for_refused u db may = ground arith

-- An enrolment that succeeds is that of the active user with the request's address, who is not locked
-- out, gave the right password, has no second factor yet, and gave a code of the secret; the only
-- session that it adds is a verified one of that user. Any other answer leaves sessions and backup
-- codes as they were.
pub mfa_enroll_confirm_lem :
    (svc : Services) (encrypted : String) (hashes : List String) (sid csrf : String) (t : ℕ → ℕ)
    (meta : Meta) (req : Confirmation) (db : Db)
    → let (db', r) = mfa_enroll_confirm svc encrypted hashes sid csrf t meta req db in
      (is_enrolled r ≡ true
        → (u : User) × (enrolling req db ≡ some u)
          × (may_enrol svc t req u db ≡ true)
          × (s : Session) × (r ≡ enrolled s)
          × (db'.sessions ≡ db.sessions ++ s ∷ [])
          × (s.user_id ≡ u.id)
          × (s.mfa_verified ≡ true))
      × (is_enrolled r ≡ false → (db'.sessions ≡ db.sessions) × (db'.codes ≡ db.codes))
unfolding mfa_enroll_confirm enrol create_session
mfa_enroll_confirm_lem svc encrypted hashes sid csrf t meta req db =
    elim (Option-cases (enrolling req db)) [
      | inl nobody ↦ rw (mfa_enroll_confirm, nobody, confirm_found) (λ h. cc, λ h. (refl, refl))
      | inr (u, there) ↦ elim (Bool-cases (may_enrol svc t req u db)) [
        | inl may ↦
            rw
              (
                mfa_enroll_confirm,
                there,
                confirm_found,
                confirm_for_allowed svc encrypted hashes sid csrf t meta req u db may,
              )
              (
                λ h. (
                  u,
                  refl,
                  may,
                  new_session sid csrf (t 3) u.id meta.ip meta.user_agent true,
                  refl,
                  refl,
                  refl,
                  refl,
                ),
                λ h. cc,
              )
        | inr denied ↦
            let (shut, sessions, codes) =
              confirm_for_refused svc encrypted hashes sid csrf t meta req u db denied in
            rw (mfa_enroll_confirm, there, confirm_found) (λ h. cc, λ h. (sessions, codes))
      ]
    ]
