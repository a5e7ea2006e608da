-- ===== src/Auth/Users.antt =====
-- backend/auth/users.py: the table of users and the history of their passwords. `now` and `now'`
-- are clock readings; NOCASE compares ASCII letters without their case.
use snapshot_drive.Prelude.{
  ℕ, String, Bool, false, not, ◌&&◌, ◌||◌, Option, none, some, List, [], ◌∷◌, ◌++◌, map, ◌==◌,
  if◌then◌else◌, take, str_eq, is_some, Result, ok, ◌>>=◌, require, err,
}
pub mod Profiles
pub mod History
use snapshot_drive.Auth.Rows.{User, OldPassword, user_with}
use snapshot_drive.Prelude.Table.{find, select, update, delete}
use snapshot_drive.Prelude.Sort.{sort_by, downwards}
use snapshot_drive.Prelude.Text.{lower}

pub data UserError : Type 0 where
  invalid_role invalid_status user_exists user_not_found integrity_error : UserError

unfoldable pub is_member : String → List String → Bool
is_member s [] = false
is_member s (x ∷ xs) = str_eq s x || is_member s xs

abbrev pub valid_roles : List String
valid_roles = "admin" ∷ "operator" ∷ "auditor" ∷ []

abbrev pub valid_statuses : List String
valid_statuses = "active" ∷ "disabled" ∷ "locked" ∷ []

-- email = ? COLLATE NOCASE
abbrev pub email_with : String → User → Bool
email_with email u = str_eq (lower u.email) (lower email)

abbrev pub get_user_by_email : String → List User → Option User
get_user_by_email email = find (email_with email)

abbrev pub get_user_by_id : ℕ → List User → Option User
get_user_by_id user_id = find (user_with user_id)

-- the columns that the INSERT leaves out have their defaults
abbrev pub new_user : ℕ → ℕ → String → String → String → String → User
new_user rowid now email display_name password_hash role = record {
  id = rowid;
  email = email;
  display_name = display_name;
  password_hash = password_hash;
  role = role;
  mfa_secret = none;
  mfa_enrolled_at = none;
  status = "active";
  failed_attempts = 0;
  lock_count = 0;
  locked_until = none;
  created_at = now;
  updated_at = now;
  last_login_at = none;
  mfa_disabled = false;
}

-- `rowid` is the id that SQLite gives; the address is unique.
unfoldable pub create_user :
    ℕ
    → ℕ
    → String
    → String
    → String
    → String
    → List User
    → Result UserError (List User × Option User)
create_user rowid now email display_name password_hash role users = do
  _ ← require (is_member role valid_roles) invalid_role
  _ ← require (not (is_some (get_user_by_email email users))) user_exists
  let users' = users ++ new_user rowid now email display_name password_hash role ∷ [] in
      ok (users', get_user_by_id rowid users')

-- `UPDATE users SET ... WHERE id = ?` and the test of the row count
unfoldable pub update_user : ℕ → (User → User) → List User → Result UserError (List User)
update_user user_id f users =
    if is_some (find (user_with user_id) users)
    then ok (update (user_with user_id) f users)
    else err user_not_found

unfoldable pub set_role : ℕ → ℕ → String → List User → Result UserError (List User)
unfolding update_user
set_role now user_id role users = do
  _ ← require (is_member role valid_roles) invalid_role
  update_user user_id (λ u. record u { role = role; updated_at = now }) users

unfoldable pub set_status : ℕ → ℕ → String → List User → Result UserError (List User)
unfolding update_user
set_status now user_id status users = do
  _ ← require (is_member status valid_statuses) invalid_status
  update_user user_id (λ u. record u { status = status; updated_at = now }) users

unfoldable pub set_mfa_disabled : ℕ → ℕ → Bool → List User → Result UserError (List User)
unfolding update_user
set_mfa_disabled now user_id disabled =
    update_user user_id (λ u. record u { mfa_disabled = disabled; updated_at = now })

abbrev pub or_else {ℓ} : {A : Type ℓ} → Option A → A → A
or_else none a = a
or_else (some x) a = x

abbrev pub with_profile : ℕ → Option String → Option String → User → User
with_profile now display_name email u = record u {
  display_name = or_else display_name u.display_name;
  email = or_else email u.email;
  updated_at = now;
}

-- Another user has the address.
abbrev pub is_taken : ℕ → Option String → List User → Bool
is_taken user_id none users = false
is_taken user_id (some email) users =
    is_some (find (λ u. email_with email u && not (user_with user_id u)) users)

unfoldable pub update_profile :
    ℕ → ℕ → Option String → Option String → List User → Result UserError (List User)
unfolding update_user
update_profile now user_id display_name email users =
    if is_some display_name || is_some email
    then (do
      _ ←
          require (not (is_some (find (user_with user_id) users) && is_taken user_id email users))
            user_exists
      update_user user_id (with_profile now display_name email) users)
    else ok users

abbrev pub history_of : ℕ → OldPassword → Bool
history_of user_id h = h.user_id == user_id

abbrev pub newest : ℕ → List OldPassword → List OldPassword
newest user_id rows =
    take 5 (sort_by (downwards (λ h. h.changed_at)) (select (history_of user_id) rows))

unfoldable pub is_among : ℕ → List OldPassword → Bool
is_among t [] = false
is_among t (h ∷ hs) = t == h.changed_at || is_among t hs

-- The trim to the last five.
unfoldable pub trim : ℕ → List OldPassword → List OldPassword
trim user_id rows =
    delete (λ h. history_of user_id h && not (is_among h.changed_at (newest user_id rows))) rows

abbrev pub changed : ℕ → String → ℕ → OldPassword
changed user_id new_hash now = record {
  user_id = user_id;
  password_hash = new_hash;
  changed_at = now;
}

-- The INSERT under PRIMARY KEY (user_id, changed_at), and the trim.
unfoldable pub keep_password :
    ℕ → ℕ → String → List OldPassword → Result UserError (List OldPassword)
unfolding trim
keep_password now user_id new_hash history = do
  _ ←
      require (not (is_some (find (λ h. history_of user_id h && h.changed_at == now) history)))
        integrity_error
  ok (trim user_id (history ++ changed user_id new_hash now ∷ []))

-- The users are committed before the history is written.
unfoldable pub update_password :
    ℕ
    → ℕ
    → ℕ
    → String
    → List User
    → List OldPassword
    → List User × Result UserError (List OldPassword)
unfolding update_user keep_password
update_password now now' user_id new_hash users history =
    elim (update_user user_id (λ u. record u { password_hash = new_hash; updated_at = now })
      users) [
        | err e ↦ (users, err e)
        | ok users' ↦ (users', keep_password now' user_id new_hash history)
      ]

unfoldable pub get_password_history : ℕ → List OldPassword → List String
get_password_history user_id rows = map (λ h. h.password_hash) (newest user_id rows)
