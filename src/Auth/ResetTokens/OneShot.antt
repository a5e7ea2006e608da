-- ===== src/Auth/ResetTokens/OneShot.antt =====
-- A reset token works once, within the hour, for the user that it was made for.
use snapshot_drive.Prelude.{
  ℕ, ◌+◌, ◌*◌, ◌≤◌, ◌<◌, String, ◌≡◌, refl, sym, ap, ◌∙◌, subst, inl, inr, true, false, none, some,
  List, [], ◌∷◌, ◌++◌, arith, Bool-cases, Option-cases, eq_refl, ok, ok_injective, err,
}
use snapshot_drive.Auth.Rows.{PasswordReset, hour}
use snapshot_drive.Auth.ResetTokens.{
  create_reset_token, consume_reset_token, is_usable, reset_with, reset_ttl, consumed,
  integrity_error,
}
use snapshot_drive.Prelude.Table.{find, update, find-update_found, find-append_none}

module _ (hash : String → String) (token : String) (t t' : ℕ) (rows : List PasswordReset) where
  consume_absent :
      find (reset_with (hash token)) rows ≡ none
      → consume_reset_token hash token t t' rows ≡ (rows, none)
  unfolding consume_reset_token
  consume_absent absent = rw (absent, consume_reset_token) refl

  consume_unusable :
      {r : PasswordReset}
      → find (reset_with (hash token)) rows ≡ some r
      → is_usable t r ≡ false
      → consume_reset_token hash token t t' rows ≡ (rows, none)
  unfolding consume_reset_token
  consume_unusable there old = rw (there, consume_reset_token) (rw old refl)

  consume_usable :
      {r : PasswordReset}
      → find (reset_with (hash token)) rows ≡ some r
      → is_usable t r ≡ true
      → consume_reset_token hash token t t' rows
        ≡ (update (reset_with (hash token)) (consumed t') rows, some r.user_id)
  unfolding consume_reset_token
  consume_usable there live = rw (there, consume_reset_token) (rw live refl)

abbrev new_reset : (String → String) → String → ℕ → ℕ → PasswordReset
new_reset hash token now user_id = record {
  token_hash = hash token;
  user_id = user_id;
  created_at = now;
  expires_at = now + reset_ttl;
  consumed_at = none;
}

find-create_reset_token :
    (hash : String → String) (token : String) (now user_id : ℕ) (rows rows' : List PasswordReset)
    (plain : String)
    → create_reset_token hash token now user_id rows ≡ ok (rows', plain)
    → find (reset_with (hash plain)) rows' ≡ some (new_reset hash token now user_id)
unfolding create_reset_token
find-create_reset_token hash token now user_id rows rows' plain made =
    elim (Option-cases (find (reset_with (hash token)) rows)) [
      | inl absent ↦
          let e : create_reset_token hash token now user_id rows
              ≡ ok (rows ++ new_reset hash token now user_id ∷ [], token) =
            rw (absent, create_reset_token) refl in
          let same = ok_injective (sym e ∙ made) in
          subst (λ x. find (reset_with (hash x.1)) x.0 ≡ some (new_reset hash token now user_id))
            same
            (find-append_none (reset_with (hash token)) rows (new_reset hash token now user_id)
                absent
              ∙ rw (eq_refl (hash token)) refl)
      | inr (r, there) ↦
          let e : create_reset_token hash token now user_id rows ≡ err integrity_error =
            rw (there, create_reset_token) refl in
          cc
    ]

-- A token that was just made gives its user when it is used within the hour, and nothing later.
pub create-consume :
    (hash : String → String) (token : String) (now user_id t t' : ℕ)
    (rows rows' : List PasswordReset) (plain : String)
    → create_reset_token hash token now user_id rows ≡ ok (rows', plain)
    → (t < now + 1 * hour → (consume_reset_token hash plain t t' rows').1 ≡ some user_id)
      × (now + 1 * hour ≤ t → consume_reset_token hash plain t t' rows' ≡ (rows', none))
unfolding is_usable
create-consume hash token now user_id t t' rows rows' plain made =
    let there = find-create_reset_token hash token now user_id rows rows' plain made in
    (
      λ early. ap (λ x. x.1) (consume_usable hash plain t t' rows' there (ground arith)),
      λ late. consume_unusable hash plain t t' rows' there (ground arith),
    )

-- A token that gave a user gives none at any later use.
pub consume_once :
    (hash : String → String) (token : String) (t t' s s' user_id : ℕ) (rows : List PasswordReset)
    → (consume_reset_token hash token t t' rows).1 ≡ some user_id
    → (consume_reset_token hash token s s' (consume_reset_token hash token t t' rows).0).1 ≡ none
consume_once hash token t t' s s' user_id rows given =
    elim (Option-cases (find (reset_with (hash token)) rows)) [
      | inl absent ↦ let e = consume_absent hash token t t' rows absent in cc
      | inr (r, there) ↦ elim (Bool-cases (is_usable t r)) [
        | inl live ↦
            let e = consume_usable hash token t t' rows there live in
            let again =
              find-update_found (reset_with (hash token)) (consumed t') rows (λ x. refl) there in
            let gone : is_usable s (consumed t' r) ≡ false = unfold is_usable in refl in
            rw e (ap (λ x. x.1) (consume_unusable hash token s s' _ again gone))
        | inr old ↦ let e = consume_unusable hash token t t' rows there old in cc
      ]
    ]
