-- ===== src/Prelude/Sort.antt =====
-- ORDER BY: insertion sort of rows by a number of each row, upwards or downwards. Rows with the
-- same number keep their order.
use Prim.Native.Nat.{ℕ, zero, suc, ◌<◌}
use mathlib.Core.Logic.{inl, inr}
use mathlib.Core.Path.{◌≡◌, refl, ap, ◌∙◌}
use mathlib.Core.Bool.{Bool, true, false}
use mathlib.Core.List.{List, [], ◌∷◌, ◌++◌}
use native.Mathlib.Omega.{arith}
use snapshot_drive.Prelude.{if◌then◌else◌, Bool-cases, leb, length, All, take, All-take}
use snapshot_drive.Prelude.Table.{count}

module _ {ℓ} {A : Type ℓ} (before : A → A → Bool) where
  unfoldable pub insert_by : A → List A → List A
  insert_by r [] = r ∷ []
  insert_by r (x ∷ xs) = let rest = insert_by r xs in if before r x then r ∷ x ∷ xs else x ∷ rest

  unfoldable pub sort_by : List A → List A
  unfolding insert_by
  sort_by [] = []
  sort_by (r ∷ rows) = insert_by r (sort_by rows)

  -- Each row comes before all that follow it.
  abbrev pub IsSorted : List A → Type ℓ
  IsSorted [] = Unit
  IsSorted (r ∷ rows) = All (λ x. before r x ≡ true) rows × IsSorted rows

  All-insert_by {κ} :
      (P : A → Type κ) (r : A) (rows : List A) → P r → All P rows → All P (insert_by r rows)
  unfolding insert_by
  All-insert_by P r [] h hs = (h, tt)
  All-insert_by P r (x ∷ xs) h hs = elim (Bool-cases (before r x)) [
    | inl e ↦ rw e (h, hs)
    | inr e ↦ rw e (hs.0, All-insert_by P r xs h hs.1)
  ]

  -- Sorting loses no row that satisfies a predicate with all others.
  pub All-sort_by {κ} : (P : A → Type κ) (rows : List A) → All P rows → All P (sort_by rows)
  unfolding sort_by
  All-sort_by P [] h = tt
  All-sort_by P (r ∷ rows) h = All-insert_by P r (sort_by rows) h.0 (All-sort_by P rows h.1)

  count-insert_by :
      (p : A → Bool) (r : A) (rows : List A) → count p (insert_by r rows) ≡ count p (r ∷ rows)
  unfolding insert_by count
  count-insert_by p r [] = refl
  count-insert_by p r (x ∷ xs) = ground (arith, count-insert_by p r xs)

  -- Sorting loses no row and adds none.
  pub count-sort_by : (p : A → Bool) (rows : List A) → count p (sort_by rows) ≡ count p rows
  unfolding sort_by count
  count-sort_by p [] = refl
  count-sort_by p (r ∷ rows) =
      ground (arith, count-insert_by p r (sort_by rows), count-sort_by p rows)

  length-insert_by : (r : A) (rows : List A) → length (insert_by r rows) ≡ suc (length rows)
  unfolding insert_by
  length-insert_by r [] = refl
  length-insert_by r (x ∷ xs) = ground (arith, length-insert_by r xs)

  pub length-sort_by : (rows : List A) → length (sort_by rows) ≡ length rows
  unfolding sort_by
  length-sort_by [] = refl
  length-sort_by (r ∷ rows) = length-insert_by r (sort_by rows) ∙ ap suc (length-sort_by rows)

  pub take-IsSorted : (n : ℕ) (rows : List A) → IsSorted rows → IsSorted (take n rows)
  take-IsSorted zero rows h = tt
  take-IsSorted (suc n) [] h = tt
  take-IsSorted (suc n) (r ∷ rows) h =
      (All-take (λ x. before r x ≡ true) n rows h.0, take-IsSorted n rows h.1)

module _ {ℓ} {A : Type ℓ} (before : A → A → Bool)
    (total : (a b : A) → before a b ≡ false → before b a ≡ true)
    (trans : (a b c : A) → before a b ≡ true → before b c ≡ true → before a c ≡ true) where
  All-before :
      (a b : A) (rows : List A)
      → before a b ≡ true
      → All (λ x. before b x ≡ true) rows
      → All (λ x. before a x ≡ true) rows
  All-before a b [] h hs = tt
  All-before a b (x ∷ xs) h hs = (trans a b x h hs.0, All-before a b xs h hs.1)

  insert_by-IsSorted :
      (r : A) (rows : List A) → IsSorted before rows → IsSorted before (insert_by before r rows)
  unfolding insert_by
  insert_by-IsSorted r [] h = (tt, tt)
  insert_by-IsSorted r (x ∷ xs) h = elim (Bool-cases (before r x)) [
    | inl e ↦ rw e ((e, All-before r x xs e h.0), h)
    | inr e ↦ rw e (
      All-insert_by before (λ y. before x y ≡ true) r xs (total r x e) h.0,
      insert_by-IsSorted r xs h.1,
    )
  ]

  pub sort_by-IsSorted : (rows : List A) → IsSorted before (sort_by before rows)
  unfolding sort_by
  sort_by-IsSorted [] = tt
  sort_by-IsSorted (r ∷ rows) = insert_by-IsSorted r (sort_by before rows) (sort_by-IsSorted rows)

module _ {ℓ} {A : Type ℓ} (key : A → ℕ) where
  -- ORDER BY key
  abbrev pub upwards : A → A → Bool
  upwards a b = leb (key a) (key b)

  -- ORDER BY key DESC
  abbrev pub downwards : A → A → Bool
  downwards a b = leb (key b) (key a)

  pub upwards-IsSorted : (rows : List A) → IsSorted upwards (sort_by upwards rows)
  upwards-IsSorted = sort_by-IsSorted upwards (λ a b h. ground arith) (λ a b c h k. ground arith)

  pub downwards-IsSorted : (rows : List A) → IsSorted downwards (sort_by downwards rows)
  downwards-IsSorted =
      sort_by-IsSorted downwards (λ a b h. ground arith) (λ a b c h k. ground arith)

  -- A row newer than all others comes first.
  pub downwards-newest :
      (n : A) (rows : List A)
      → All (λ r. key r < key n) rows
      → sort_by downwards (rows ++ n ∷ []) ≡ n ∷ sort_by downwards rows
  unfolding sort_by insert_by
  downwards-newest n [] h = refl
  downwards-newest n (r ∷ rows) h =
      let older : leb (key n) (key r) ≡ false = ground (arith, h.0) in
      ap (insert_by downwards r) (downwards-newest n rows h.1) ∙ rw (older, insert_by) refl
