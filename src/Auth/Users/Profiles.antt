-- ===== src/Auth/Users/Profiles.antt =====
-- Addresses stay unique, whatever the letters' case.
use snapshot_drive.Prelude.{
  ℕ, ◌≤◌, String, ◌≡◌, refl, sym, ap, ◌∙◌, subst, ◌⊎◌, inl, inr, Bool, true, false, not, ◌&&◌, ◌||◌,
  Option, none, some, List, [], ◌∷◌, ◌++◌, arith, Bool-cases, Option-cases, str_eq, eq_iff, is_some,
  ok, err, ok_injective, ==_self,
}
use snapshot_drive.Auth.Rows.{User, user_with}
use snapshot_drive.Prelude.Table.{find, count, update, find-append_none}
use snapshot_drive.Prelude.Table.Counting.{count-none, count-append_one, count-update-le}
use snapshot_drive.Auth.Users.{
  email_with, create_user, update_profile, new_user, is_member, valid_roles, get_user_by_email,
  user_exists, invalid_role, get_user_by_id, update_user, with_profile, is_taken, user_not_found,
}
use snapshot_drive.Prelude.Text.{lower}

-- No two users share an address, and none an id.
abbrev pub AreUnique : List User → Type 0
AreUnique users =
    ((email : String) → count (email_with email) users ≤ 1)
    × ((i : ℕ) → count (user_with i) users ≤ 1)

count-update-le-key :
    (p q : User → Bool) (f : User → User) (users : List User)
    → find (λ u. p u && not (q u)) users ≡ none
    → count p (update q f users) ≤ count q users
unfolding find count update
count-update-le-key p q f [] h = omega arith
count-update-le-key p q f (u ∷ users) h = ground (arith, count-update-le-key p q f users)

same_address :
    (e e' : String) (users : List User)
    → str_eq (lower e) (lower e') ≡ true
    → (find (email_with e) users ≡ none → find (email_with e') users ≡ none)
same_address e e' users same =
    subst
      (λ x. find (email_with e) users ≡ none → find (λ u. str_eq (lower u.email) x) users ≡ none)
      ((eq_iff (lower e) (lower e')).0 same) (λ h. h)

append-AreUnique :
    (users : List User) (u : User)
    → AreUnique users
    → find (email_with u.email) users ≡ none
    → find (user_with u.id) users ≡ none
    → AreUnique (users ++ u ∷ [])
append-AreUnique users u unique free fresh = (
  λ e. elim (Bool-cases (email_with e u)) [
    | inl same ↦
        let absent = count-none (email_with e) users (same_address u.email e users same free) in
        let grown = count-append_one (email_with e) users u in ground arith
    | inr other ↦
        let grown = count-append_one (email_with e) users u in
        let before = unique.0 e in ground arith
  ],
  λ i. elim (Bool-cases (user_with i u)) [
    | inl same ↦
        let absent : count (user_with i) users ≡ 0 =
          count-none (user_with i) users
            (subst (λ x. find (user_with x) users ≡ none) (ground arith) fresh) in
        let grown = count-append_one (user_with i) users u in ground arith
    | inr other ↦
        let grown = count-append_one (user_with i) users u in
        let before = unique.1 i in ground arith
  ],
)

create_user_free :
    (rowid now : ℕ) (email name hash role : String) (users : List User)
    → is_member role valid_roles ≡ true
    → get_user_by_email email users ≡ none
    → let users' = users ++ new_user rowid now email name hash role ∷ [] in
      create_user rowid now email name hash role users ≡ ok (users', get_user_by_id rowid users')
unfolding create_user
create_user_free rowid now email name hash role users known free = rw (known, free) refl

create_user_taken :
    (rowid now : ℕ) (email name hash role : String) (users : List User) (u : User)
    → is_member role valid_roles ≡ true
    → get_user_by_email email users ≡ some u
    → create_user rowid now email name hash role users ≡ err user_exists
unfolding create_user
create_user_taken rowid now email name hash role users u known taken = rw (known, taken) refl

create_user_unknown :
    (rowid now : ℕ) (email name hash role : String) (users : List User)
    → is_member role valid_roles ≡ false
    → create_user rowid now email name hash role users ≡ err invalid_role
unfolding create_user
create_user_unknown rowid now email name hash role users unknown = rw unknown refl

-- A user that is created at a new id has an address that no other user has, and the table keeps
-- its addresses and ids unique; a taken address or an unknown role is refused.
pub create_user_lem :
    (rowid now : ℕ) (email name hash role : String) (users : List User)
    → AreUnique users
    → find (user_with rowid) users ≡ none
    → ((users' : List User) (u : Option User)
        → create_user rowid now email name hash role users ≡ ok (users', u)
        → AreUnique users' × (u ≡ some (new_user rowid now email name hash role)))
      × ((u : User)
          → is_member role valid_roles ≡ true
          → get_user_by_email email users ≡ some u
          → create_user rowid now email name hash role users ≡ err user_exists)
      × (is_member role valid_roles ≡ false
          → create_user rowid now email name hash role users ≡ err invalid_role)
unfolding create_user
create_user_lem rowid now email name hash role users unique fresh =
    let u = new_user rowid now email name hash role in
    (
      λ users' found done. elim (Bool-cases (is_member role valid_roles)) [
        | inl known ↦ elim (Option-cases (get_user_by_email email users)) [
          | inl free ↦
              let same =
                ok_injective
                  (sym (create_user_free rowid now email name hash role users known free) ∙ done) in
              (
                subst AreUnique (ap (λ x. x.0) same) (append-AreUnique users u unique free fresh),
                sym (ap (λ x. x.1) same)
                    ∙ find-append_none (user_with rowid) users u fresh
                    ∙ rw (==_self rowid) refl,
              )
          | inr (v, taken) ↦
              let e = create_user_taken rowid now email name hash role users v known taken in cc
        ]
        | inr unknown ↦
            let e = create_user_unknown rowid now email name hash role users unknown in cc
      ],
      create_user_taken rowid now email name hash role users,
      create_user_unknown rowid now email name hash role users,
    )

update_profile_inv :
    (now user_id : ℕ) (name email : Option String) (users users' : List User)
    → update_profile now user_id name email users ≡ ok users'
    → (users' ≡ users)
      ⊎ ((users' ≡ update (user_with user_id) (with_profile now name email) users)
          × (is_taken user_id email users ≡ false))
unfolding update_profile update_user
update_profile_inv now user_id name email users users' done =
    elim (Bool-cases (is_some name || is_some email)) [
      | inl some_field ↦ elim (Option-cases (find (user_with user_id) users)) [
        | inl absent ↦
            let e : update_profile now user_id name email users ≡ err user_not_found =
              rw (some_field, absent) refl in
            cc
        | inr (u, there) ↦ elim (Bool-cases (is_taken user_id email users)) [
          | inl taken ↦
              let e : update_profile now user_id name email users ≡ err user_exists =
                rw (some_field, there, taken) refl in
              cc
          | inr free ↦
              let e : update_profile now user_id name email users
                  ≡ ok (update (user_with user_id) (with_profile now name email) users) =
                rw (some_field, there, free) refl in
              inr (ok_injective (sym done ∙ e), free)
        ]
      ]
      | inr no_field ↦
          let e : update_profile now user_id name email users ≡ ok users = rw no_field refl in
          inl (ok_injective (sym done ∙ e))
    ]

none_found :
    (p : User → Bool) (users : List User) → is_some (find p users) ≡ false → find p users ≡ none
none_found p users h = elim (Option-cases (find p users)) [
  | inl absent ↦ absent
  | inr (u, there) ↦ ground arith
]

with_profile-AreUnique :
    (now user_id : ℕ) (name email : Option String) (users : List User)
    → AreUnique users
    → is_taken user_id email users ≡ false
    → AreUnique (update (user_with user_id) (with_profile now name email) users)
with_profile-AreUnique now user_id name none users unique free = (
  λ e.
      let fewer =
        count-update-le (email_with e) (user_with user_id) (with_profile now name none) users
          (λ u h. h) in
      let before = unique.0 e in omega arith,
  λ i.
      let fewer =
        count-update-le (user_with i) (user_with user_id) (with_profile now name none) users
          (λ u h. h) in
      let before = unique.1 i in omega arith,
)
with_profile-AreUnique now user_id name (some new) users unique free = (
  λ e. elim (Bool-cases (str_eq (lower new) (lower e))) [
    | inl same ↦
        let alone : find (λ u. email_with e u && not (user_with user_id u)) users ≡ none =
          subst
            (λ x. find (λ u. str_eq (lower u.email) x && not (user_with user_id u)) users ≡ none)
            ((eq_iff (lower new) (lower e)).0 same)
            (none_found (λ u. email_with new u && not (user_with user_id u)) users free) in
        let fewer =
          count-update-le-key (email_with e) (user_with user_id) (with_profile now name (some new))
            users alone in
        let one = unique.1 user_id in omega arith
    | inr other ↦
        let fewer =
          count-update-le (email_with e) (user_with user_id) (with_profile now name (some new))
            users (λ u h. cc) in
        let before = unique.0 e in omega arith
  ],
  λ i.
      let fewer =
        count-update-le (user_with i) (user_with user_id) (with_profile now name (some new)) users
          (λ u h. h) in
      let before = unique.1 i in omega arith,
)

-- A changed profile keeps addresses and ids unique.
pub update_profile-AreUnique :
    (now user_id : ℕ) (name email : Option String) (users users' : List User)
    → AreUnique users
    → update_profile now user_id name email users ≡ ok users'
    → AreUnique users'
update_profile-AreUnique now user_id name email users users' unique done =
    elim (update_profile_inv now user_id name email users users' done) [
      | inl same ↦ subst AreUnique (sym same) unique
      | inr (changed, free) ↦
          subst AreUnique (sym changed)
            (with_profile-AreUnique now user_id name email users unique free)
    ]
