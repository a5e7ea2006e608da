-- ===== src/Auth/Admin/Guarded.antt =====
-- Who may manage users, and what disabling a user brings about.
use snapshot_drive.Prelude.{
  ℕ, String, ◌≡◌, refl, sym, subst, ap, ◌∙◌, Bool, true, some, List, [], ◌∷◌, arith, inl, inr, ok,
  err, Option, Option-cases, Bool-cases, str_eq, eq_iff, All, ◌==◌, ◌≢◌, ◌⊎◌,
}
use snapshot_drive.Prelude.Table.{find, update, All-find}
use snapshot_drive.Auth.Rows.{User, user_with}
use snapshot_drive.Auth.Db.{Db}
use snapshot_drive.Auth.Middleware.{Context, Request, load_context, require_any_role}
use snapshot_drive.Auth.Middleware.Guarded.{load_context_lem}
use snapshot_drive.Auth.Users.{
  email_with, set_status, is_member, update_user, user_not_found as no_user,
}
use snapshot_drive.Auth.Login.{Services, Login, login, address, invalid_credentials}
use snapshot_drive.Auth.Login.Admission.{login_user, login_refuses}
use snapshot_drive.Auth.Admin.{
  done, unauthenticated, forbidden, user_not_found, Operation, handle, run, disabling,
  disable_route,
}

-- An endpoint that is done with its work was asked by an admin.
handle_done :
    (t : ℕ → ℕ) (ip : Option String) (uid : ℕ) (o : Operation) (g : Context) (db : Db)
    → (handle t ip uid o g db).1 ≡ done
    → (admin : User) × (g.current_user ≡ some admin)
      × (str_eq admin.role "admin" ≡ true)
      × (handle t ip uid o g db ≡ run t ip uid o admin db)
unfolding handle require_any_role is_member
handle_done t ip uid o g db finished = elim (Option-cases g.current_user) [
  | inl nobody ↦
      let same : handle t ip uid o g db ≡ (db, unauthenticated) =
        rw (handle, require_any_role, nobody) refl in
      cc
  | inr (u, there) ↦ elim (Bool-cases (str_eq u.role "admin")) [
    | inl admin ↦ (u, there, admin, rw (handle, require_any_role, there, is_member, admin) refl)
    | inr other ↦
        let same : handle t ip uid o g db ≡ (db, forbidden) =
          rw (handle, require_any_role, there, is_member, other) refl in
        cc
  ]
]

-- In the table every row with the id is disabled.
abbrev AreDisabled : ℕ → List User → Type 0
AreDisabled uid users = All (λ u. (u.id == uid) ≡ true → str_eq u.status "disabled" ≡ true) users

update-AreDisabled :
    (now uid : ℕ) (users : List User)
    → AreDisabled uid
        (update (user_with uid) (λ u. record u { status = "disabled"; updated_at = now }) users)
unfolding update
update-AreDisabled now uid [] = tt
update-AreDisabled now uid (u ∷ users) = elim (Bool-cases (u.id == uid)) [
  | inl same ↦ rw same (λ e. refl, update-AreDisabled now uid users)
  | inr other ↦ rw other (λ e. cc, update-AreDisabled now uid users)
]

set_status_inv :
    (now uid : ℕ) (users : List User)
    → (set_status now uid "disabled" users
        ≡ ok (
            update (user_with uid) (λ u. record u { status = "disabled"; updated_at = now }) users))
      ⊎ (set_status now uid "disabled" users ≡ err no_user)
unfolding set_status is_member update_user
set_status_inv now uid users = elim (Option-cases (find (user_with uid) users)) [
  | inl gone ↦ inr (rw gone refl)
  | inr (u, there) ↦ inl (rw there refl)
]

disable_route-AreDisabled :
    (t : ℕ → ℕ) (ip : Option String) (uid : ℕ) (admin : User) (db : Db)
    → (disable_route t ip uid admin db).1 ≡ done
    → AreDisabled uid (disable_route t ip uid admin db).0.users
unfolding disable_route
disable_route-AreDisabled t ip uid admin db finished = elim (set_status_inv (t 0) uid db.users) [
  | inl fine ↦ rw (disable_route, fine) (update-AreDisabled (t 0) uid db.users)
  | inr gone ↦
      let same : disable_route t ip uid admin db ≡ (db, user_not_found) =
        rw (disable_route, gone) refl in
      cc
]

disabled_row :
    (uid : ℕ) (p : User → Bool) (users : List User) (u : User)
    → AreDisabled uid users
    → find p users ≡ some u
    → u.id ≡ uid
    → str_eq u.status "disabled" ≡ true
disabled_row uid p users u closed found mine =
    All-find (λ v. (v.id == uid) ≡ true → str_eq v.status "disabled" ≡ true) p users closed found
      (ground arith)

status_apart : (status : String) → str_eq status "disabled" ≡ true → str_eq status "active" ≢ true
status_apart status off on =
    let is : status ≡ "disabled" = (eq_iff status "disabled").0 off in
    let clash : str_eq "disabled" "active" ≡ true = subst (λ s. str_eq s "active" ≡ true) is on in
    cc

login_user-find :
    (req : Login) (db : Db) (u : User)
    → login_user req db ≡ some u
    → find (email_with (address req)) db.users ≡ some u
login_user-find req db u found = ground arith

-- Disabling a user is done for an admin only, and keeps that user out: no later request is served
-- for the user, whatever cookie it brings, and no later login of the user, with whatever password
-- and code, is accepted, until the tables change again.
pub disabling_lem :
    (t : ℕ → ℕ) (ip : Option String) (uid : ℕ) (g : Context) (db : Db)
    → (handle t ip uid disabling g db).1 ≡ done
    → let db' = (handle t ip uid disabling g db).0 in
      ((admin : User) × (g.current_user ≡ some admin) × (str_eq admin.role "admin" ≡ true))
      × ((later : ℕ → ℕ) (req : Request) (u : User)
          → (load_context later req db').1.current_user ≡ some u
          → u.id ≢ uid)
      × ((svc : Services) (sid csrf : String) (later : ℕ → ℕ) (req : Login) (u : User)
          → login_user req db' ≡ some u
          → u.id ≡ uid
          → (login svc sid csrf later req db').1 ≡ invalid_credentials)
unfolding run
disabling_lem t ip uid g db finished =
    let (admin, there, is_admin, same) = handle_done t ip uid disabling g db finished in
    let closed : AreDisabled uid (handle t ip uid disabling g db).0.users =
      subst (λ r. AreDisabled uid r.0.users) (sym same)
        (disable_route-AreDisabled t ip uid admin db (ap (λ r. r.1) (sym same) ∙ finished)) in
    (
      (admin, there, is_admin),
      λ later req u seen mine.
          let (s, _, _, found, active, _) = (load_context_lem later req _).0 u seen in
          status_apart u.status (disabled_row uid (user_with s.user_id) _ u closed found mine)
            active,
      λ svc sid csrf later req u found mine.
          let off =
            disabled_row uid (email_with (address req)) _ u closed
              (login_user-find req (handle t ip uid disabling g db).0 u found) mine in
          (login_refuses svc sid csrf later req _ u found (rw off refl)).0,
    )
