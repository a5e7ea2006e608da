-- ===== src/Auth/Mfa/Codes.antt =====
-- Backup codes are used up.
use snapshot_drive.Prelude.{
  ℕ, ◌<◌, String, ◌≡◌, refl, inl, inr, true, false, List, arith, ◌==◌, Option-cases, eq_refl, none,
  ap, ◌∙◌,
}
use snapshot_drive.Auth.Rows.{BackupCode, User}
use snapshot_drive.Auth.Mfa.{
  consume_backup_code, disable_totp, open_code, used, matching, code_of, code_with,
}
use snapshot_drive.Central.Tokens.{Verdict}
use snapshot_drive.Prelude.Table.{count, select, All-find, find, All-select_self, delete}
use snapshot_drive.Prelude.Table.Selecting.{select-delete_none}
use snapshot_drive.Prelude.Table.Counting.{count-update-lt, count-update_same}

used-closed : (user_id now : ℕ) (c : BackupCode) → open_code user_id (used now c) ≡ false
used-closed user_id now c = ground arith

-- A use of a backup code that succeeds leaves the user with fewer codes; one that fails changes
-- nothing; and neither changes how many codes another user has.
pub consume_backup_code_lem :
    (check : String → String → Verdict) (now user_id other : ℕ) (text : String)
    (codes : List BackupCode)
    → let after = consume_backup_code check now user_id text codes in
      (after.1 ≡ true → count (open_code user_id) after.0 < count (open_code user_id) codes)
      × (after.1 ≡ false → after.0 ≡ codes)
      × ((other == user_id) ≡ false
          → count (open_code other) after.0 ≡ count (open_code other) codes)
unfolding consume_backup_code
consume_backup_code_lem check now user_id other text codes =
    elim (Option-cases (matching check text (select (open_code user_id) codes))) [
      | inl absent ↦ rw (absent, consume_backup_code) (λ h. cc, λ h. refl, λ apart. refl)
      | inr (c, there) ↦
          let mine =
            All-find (λ r. open_code user_id r ≡ true) _ _
              (All-select_self (open_code user_id) codes) (unfold matching in there) in
          let own : code_with user_id c.code_hash c ≡ true = ground (arith, eq_refl c.code_hash) in
          rw (there, consume_backup_code)
            (
              λ h.
                  count-update-lt (open_code user_id) (code_with user_id c.code_hash) _ (used now)
                    codes (used-closed user_id now) (unfold matching in there) own,
              λ h. cc,
              λ apart.
                  count-update_same (open_code other) (code_with user_id c.code_hash) (used now)
                    codes (λ r hit. ground arith),
            )
    ]

consume_unmatched :
    (check : String → String → Verdict) (now user_id : ℕ) (text : String) (codes : List BackupCode)
    → matching check text (select (open_code user_id) codes) ≡ none
    → (consume_backup_code check now user_id text codes).1 ≡ false
unfolding consume_backup_code
consume_unmatched check now user_id text codes absent = rw (absent, consume_backup_code) refl

-- After the second factor is disabled no code of the user verifies.
pub consume-disable :
    (check : String → String → Verdict) (now t user_id : ℕ) (text : String) (users : List User)
    (codes : List BackupCode)
    → (consume_backup_code check t user_id text (disable_totp now user_id users codes).1).1 ≡ false
unfolding disable_totp
consume-disable check now t user_id text users codes =
    let none_open =
      select-delete_none (open_code user_id) (code_of user_id) codes (λ r h. ground arith) in
    let no_match : matching check text (select (open_code user_id) (delete (code_of user_id) codes))
        ≡ none =
      ap (matching check text) none_open ∙ (unfold matching find in refl) in
    consume_unmatched check t user_id text (delete (code_of user_id) codes) no_match
