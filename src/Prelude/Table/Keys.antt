-- ===== src/Prelude/Table/Keys.antt =====
-- Tables whose rows are told apart by a number.
use snapshot_drive.Prelude.{
  ℕ, ◌≡◌, Bool, false, none, some, List, [], ◌∷◌, arith, Bool-cases, inl, inr, ◌==◌, ==_self,
}
use snapshot_drive.Prelude.Table.{find}

-- Rows are told apart by a number of each row, as by a primary key.
module _ {ℓ} {A : Type ℓ} (key : A → ℕ) where
  abbrev pub with_key : ℕ → A → Bool
  with_key i r = key r == i

  abbrev pub HasKeys : List A → Type ℓ
  HasKeys [] = Unit
  HasKeys (r ∷ rows) = (find (with_key (key r)) rows ≡ none) × HasKeys rows

  find-with_key_absent :
      (p : A → Bool) (i : ℕ) (rows : List A) {a : A}
      → find (with_key i) rows ≡ none
      → find p rows ≡ some a
      → (key a == i) ≡ false
  unfolding find
  find-with_key_absent p i [] n h = cc
  find-with_key_absent p i (r ∷ rows) {a} n h =
      ground (arith, find-with_key_absent p i rows {a = a})

  -- The key of a row that some statement found leads to the same row.
  pub find-with_key :
      (p : A → Bool) (rows : List A) {a : A}
      → HasKeys rows
      → find p rows ≡ some a
      → find (with_key (key a)) rows ≡ some a
  unfolding find
  find-with_key p [] k h = cc
  find-with_key p (r ∷ rows) {a} k h = elim (Bool-cases (p r)) [
    | inl e ↦ ground (arith, ==_self (key a))
    | inr e ↦
        let rest = find-with_key p rows {a = a} k.1 (ground arith) in
        let other = find-with_key_absent p (key r) rows {a = a} k.0 (ground arith) in ground arith
  ]
