-- ===== src/Prelude/Table/Selecting.antt =====
-- Selections and deletions together.
use snapshot_drive.Prelude.{◌≡◌, refl, Bool, true, false, List, [], ◌∷◌, ◌++◌, arith}
use snapshot_drive.Prelude.Table.{select, delete}

pub select-append {ℓ} :
    {A : Type ℓ} (p : A → Bool) (rows more : List A)
    → select p (rows ++ more) ≡ select p rows ++ select p more
unfolding select
select-append p [] more = refl
select-append p (r ∷ rows) more = ground (arith, select-append p rows more)

module _ {ℓ} {A : Type ℓ} where
  pub select-delete_none :
      (p q : A → Bool) (rows : List A)
      → ((r : A) → p r ≡ true → q r ≡ true)
      → select p (delete q rows) ≡ []
  unfolding select delete
  select-delete_none p q [] inside = refl
  select-delete_none p q (r ∷ rows) inside =
      ground (arith, inside r, select-delete_none p q rows inside)

  pub delete-append :
      (p : A → Bool) (rows more : List A) → delete p (rows ++ more) ≡ delete p rows ++ delete p more
  unfolding delete
  delete-append p [] more = refl
  delete-append p (r ∷ rows) more = ground (arith, delete-append p rows more)

  -- A deletion among rows that a test does not read is not seen by the test.
  pub select-delete_ne :
      (p q : A → Bool) (rows : List A)
      → ((r : A) → p r ≡ true → q r ≡ false)
      → select p (delete q rows) ≡ select p rows
  unfolding select delete
  select-delete_ne p q [] apart = refl
  select-delete_ne p q (r ∷ rows) apart = ground (arith, apart r, select-delete_ne p q rows apart)
