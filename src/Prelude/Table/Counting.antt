-- ===== src/Prelude/Table/Counting.antt =====
-- How many rows a statement touches, and what a statement does to the count of another test.
use snapshot_drive.Prelude.{
  suc, ◌≤◌, ◌≡◌, refl, inl, inr, Bool, true, false, none, some, List, [], ◌∷◌, ◌++◌, arith,
  if◌then◌else◌, Bool-cases, length,
}
use snapshot_drive.Prelude.Table.{find, select, update, delete, count}

module _ {ℓ} {A : Type ℓ} where
  -- An update that brings no row into a test does not raise its count.
  pub count-update-le :
      (p q : A → Bool) (f : A → A) (rows : List A)
      → ((r : A) → p (f r) ≡ true → p r ≡ true)
      → count p (update q f rows) ≤ count p rows
  unfolding count update
  count-update-le p q f [] keep = omega arith
  count-update-le p q f (r ∷ rows) keep = ground (arith, keep r, count-update-le p q f rows keep)

  pub count-delete-le : (p q : A → Bool) (rows : List A) → count p (delete q rows) ≤ count p rows
  unfolding count delete
  count-delete-le p q [] = omega arith
  count-delete-le p q (r ∷ rows) = ground (arith, count-delete-le p q rows)

  pub count-none : (p : A → Bool) (rows : List A) → find p rows ≡ none → count p rows ≡ 0
  unfolding find count
  count-none p [] h = refl
  count-none p (r ∷ rows) h = ground (arith, count-none p rows)

  -- An update that reaches one of the rows of a test and takes rows out of it lowers its count.
  pub count-update-lt :
      (p q g : A → Bool) (f : A → A) (rows : List A) {c : A}
      → ((r : A) → p (f r) ≡ false)
      → find g (select p rows) ≡ some c
      → q c ≡ true
      → suc (count p (update q f rows)) ≤ count p rows
  unfolding find select count update
  count-update-lt p q g f [] clear there hit = cc
  count-update-lt p q g f (r ∷ rows) {c} clear there hit =
      let most = count-update-le p q f rows (λ x e. (let no = clear x in cc)) in
      elim (Bool-cases (p r)) [
        | inl counted ↦ elim (Bool-cases (g r)) [
          | inl first ↦ ground (arith, clear r)
          | inr later ↦ ground (arith, clear r, count-update-lt p q g f rows {c = c} clear)
        ]
        | inr shut ↦ ground (arith, clear r, count-update-lt p q g f rows {c = c} clear)
      ]

  pub count-update_same :
      (p q : A → Bool) (f : A → A) (rows : List A)
      → ((r : A) → q r ≡ true → p (f r) ≡ p r)
      → count p (update q f rows) ≡ count p rows
  unfolding count update
  count-update_same p q f [] keep = refl
  count-update_same p q f (r ∷ rows) keep =
      ground (arith, keep r, count-update_same p q f rows keep)

pub count-append_one {ℓ} :
    {A : Type ℓ} (p : A → Bool) (rows : List A) (r : A)
    → count p (rows ++ r ∷ []) ≡ (if p r then suc (count p rows) else count p rows)
unfolding count
count-append_one p [] r = refl
count-append_one p (x ∷ rows) r = ground (arith, count-append_one p rows r)

pub length-select {ℓ} :
    {A : Type ℓ} (p : A → Bool) (rows : List A) → length (select p rows) ≡ count p rows
unfolding select count
length-select p [] = refl
length-select p (r ∷ rows) = ground (arith, length-select p rows)
