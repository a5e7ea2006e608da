-- ===== src/Auth/Users/History.antt =====
-- The last five passwords of a user are not accepted again.
use snapshot_drive.Prelude.{
  ℕ, ◌<◌, String, ◌≡◌, refl, sym, ap, ◌∙◌, subst, Bool, true, false, not, ◌&&◌, List, [], ◌∷◌, ◌++◌,
  map, arith, ◌==◌, All, take, ==_self, ok, err,
}
use mathlib.Core.List.{append-nil}
use snapshot_drive.Auth.Rows.{User, OldPassword}
use snapshot_drive.Prelude.Sort.{sort_by, downwards, downwards-newest}
use snapshot_drive.Auth.Users.{
  history_of, newest, trim, is_among, get_password_history, update_password, keep_password, changed,
}
use snapshot_drive.Prelude.Table.{select, All-select, delete, All-delete}
use snapshot_drive.Prelude.Table.Selecting.{select-append, select-delete_ne, delete-append}
use snapshot_drive.Auth.Passwords.{check_history, matches_any, verify_password, reused}
use snapshot_drive.Central.Tokens.{Verdict, matches}

is_stale_row : ℕ → List OldPassword → OldPassword → Bool
is_stale_row user_id rows h =
    history_of user_id h && not (is_among h.changed_at (newest user_id rows))

-- The newest row of a user, where it is newer than all others, heads the list.
newest-append :
    (user_id : ℕ) (n : OldPassword) (rows : List OldPassword)
    → n.user_id ≡ user_id
    → All (λ h. h.changed_at < n.changed_at) rows
    → newest user_id (rows ++ n ∷ [])
      ≡ n ∷ take 4 (sort_by (downwards (λ h. h.changed_at)) (select (history_of user_id) rows))
newest-append user_id n rows mine older =
    let own : select (history_of user_id) (n ∷ []) ≡ n ∷ [] = unfold select in ground arith in
    ap (λ x. take 5 (sort_by (downwards (λ h. h.changed_at)) x))
      (select-append (history_of user_id) rows (n ∷ [])
        ∙ ap (λ x. select (history_of user_id) rows ++ x) own)
    ∙ ap (take 5) (
        downwards-newest (λ h. h.changed_at) n (select (history_of user_id) rows)
          (All-select (λ h. h.changed_at < n.changed_at) (history_of user_id) rows older))

trim-append :
    (user_id : ℕ) (n : OldPassword) (rows : List OldPassword)
    → n.user_id ≡ user_id
    → All (λ h. h.changed_at < n.changed_at) rows
    → (rest : List OldPassword) × (trim user_id (rows ++ n ∷ []) ≡ rest ++ n ∷ [])
      × All (λ h. h.changed_at < n.changed_at) rest
trim-append user_id n rows mine older =
    let kept : is_stale_row user_id (rows ++ n ∷ []) n ≡ false =
      unfold is_stale_row in
      rw (newest-append user_id n rows mine older)
        (unfold is_among in ground (arith, ==_self n.changed_at)) in
    let last : delete (is_stale_row user_id (rows ++ n ∷ [])) (n ∷ []) ≡ n ∷ [] =
      unfold delete in rw kept refl in
    let stale = is_stale_row user_id (rows ++ n ∷ []) in
    (
      delete stale rows,
      unfold trim in
          unfold is_stale_row in
          delete-append stale rows (n ∷ []) ∙ ap (λ x. delete stale rows ++ x) last,
      All-delete (λ h. h.changed_at < n.changed_at) stale rows older,
    )

history-trim-append :
    (user_id : ℕ) (n : OldPassword) (rows : List OldPassword)
    → n.user_id ≡ user_id
    → All (λ h. h.changed_at < n.changed_at) rows
    → (hs : List String) × (get_password_history user_id (trim user_id (rows ++ n ∷ []))
        ≡ n.password_hash ∷ hs)
unfolding get_password_history
history-trim-append user_id n rows mine older =
    let (rest, kept, all) = trim-append user_id n rows mine older in
    (
      _,
      ap (λ x. map (λ h. h.password_hash) (newest user_id x)) kept
          ∙ ap (map (λ h. h.password_hash)) (newest-append user_id n rest mine all),
    )

verify_password_matches :
    (check : String → String → Verdict) (password h : String)
    → check h password ≡ matches
    → verify_password check password h ≡ true
unfolding verify_password
verify_password_matches check password h verifies = rw (verifies, verify_password) refl

check_history_first :
    (check : String → String → Verdict) (password h : String) (hs : List String)
    → check h password ≡ matches
    → check_history check password (h ∷ hs) ≡ err reused
unfolding check_history matches_any
check_history_first check password h hs verifies =
    rw (verify_password_matches check password h verifies) refl

history-trim_ne :
    (user_id other : ℕ) (n : OldPassword) (rows : List OldPassword)
    → (other == user_id) ≡ false
    → n.user_id ≡ user_id
    → get_password_history other (trim user_id (rows ++ n ∷ [])) ≡ get_password_history other rows
unfolding get_password_history trim
history-trim_ne user_id other n rows apart mine =
    let theirs : select (history_of other) (n ∷ []) ≡ [] = unfold select in ground arith in
    ap (λ x. map (λ h. h.password_hash) (take 5 (sort_by (downwards (λ h. h.changed_at)) x)))
      (select-delete_ne (history_of other) _ (rows ++ n ∷ []) (λ r h. ground arith)
        ∙ select-append (history_of other) rows (n ∷ [])
        ∙ ap (λ x. select (history_of other) rows ++ x) theirs
        ∙ append-nil (select (history_of other) rows))

update_password_inv :
    (now now' user_id : ℕ) (new_hash : String) (users users' : List User)
    (history history' : List OldPassword)
    → update_password now now' user_id new_hash users history ≡ (users', ok history')
    → trim user_id (history ++ changed user_id new_hash now' ∷ []) ≡ history'
unfolding update_password keep_password
update_password_inv now now' user_id new_hash users users' history history' done = ground arith

-- A password that was just set, at a time after all entries of the history, is refused as the
-- next password of that user; the history of any other user is what it was.
pub update_password-check_history :
    (check : String → String → Verdict) (now now' user_id other : ℕ) (password new_hash : String)
    (users users' : List User) (history history' : List OldPassword)
    → update_password now now' user_id new_hash users history ≡ (users', ok history')
    → All (λ h. h.changed_at < now') history
    → check new_hash password ≡ matches
    → (check_history check password (get_password_history user_id history') ≡ err reused)
      × ((other == user_id) ≡ false
          → get_password_history other history' ≡ get_password_history other history)
update_password-check_history check now now' user_id other password new_hash users users' history
      history' done older verifies =
    let n = changed user_id new_hash now' in
    let trimmed : trim user_id (history ++ n ∷ []) ≡ history' =
      update_password_inv now now' user_id new_hash users users' history history' done in
    let (hs, found) = history-trim-append user_id n history refl older in
    (
      subst (λ x. check_history check password (get_password_history user_id x) ≡ err reused)
          trimmed
          (ap (check_history check password) found
            ∙ check_history_first check password new_hash hs verifies),
      λ apart.
          ap (get_password_history other) (sym trimmed)
          ∙ history-trim_ne user_id other n history apart refl,
    )
