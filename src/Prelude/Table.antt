-- ===== src/Prelude/Table.antt =====
-- A table of the SQLite database as the list of its rows, and the statements that the program
-- issues: each takes the WHERE clause as a test on a row.
pub mod Counting
pub mod Keys
pub mod Selecting
use snapshot_drive.Prelude.{
  ℕ, suc, ◌+◌, ◌≤◌, ◌≡◌, refl, ap, subst, inl, inr, Bool, true, false, Option, none, some, List, [],
  ◌∷◌, ◌++◌, arith, if◌then◌else◌, Bool-cases, All, length, is_some,
}
use mathlib.Core.Logic.{inl, inr}
use mathlib.Core.Path.{◌≡◌, refl, ap, subst, ◌∙◌}
use mathlib.Core.Bool.{Bool, true, false}
use mathlib.Core.Option.{Option, none, some}
use mathlib.Core.Option
use mathlib.Core.List.{List, [], ◌∷◌, ◌++◌}
use Prim.Native.Nat.{ℕ, suc, ◌+◌, ◌≤◌}
use native.Mathlib.Omega.{arith}
use snapshot_drive.Prelude.Tests.{if◌then◌else◌, Bool-cases, is_some}
use snapshot_drive.Prelude.Lists.{length, All}

module _ {ℓ} {A : Type ℓ} where
  -- SELECT ... WHERE p, and `fetchone`
  unfoldable pub find : (A → Bool) → List A → Option A
  find p [] = none
  find p (r ∷ rows) = let rest = find p rows in if p r then some r else rest

  -- SELECT ... WHERE p, and `fetchall`
  unfoldable pub select : (A → Bool) → List A → List A
  select p [] = []
  select p (r ∷ rows) = let rest = select p rows in if p r then r ∷ rest else rest

  -- UPDATE ... SET f WHERE p
  unfoldable pub update : (A → Bool) → (A → A) → List A → List A
  update p f [] = []
  update p f (r ∷ rows) = (if p r then f r else r) ∷ update p f rows

  -- DELETE ... WHERE p
  unfoldable pub delete : (A → Bool) → List A → List A
  delete p [] = []
  delete p (r ∷ rows) = let rest = delete p rows in if p r then rest else r ∷ rest

  -- SELECT COUNT(*) ... WHERE p; also the `rowcount` of the UPDATE or DELETE
  unfoldable pub count : (A → Bool) → List A → ℕ
  count p [] = 0
  count p (r ∷ rows) = if p r then suc (count p rows) else count p rows

  pub find-update :
      (p q : A → Bool) (f : A → A) (rows : List A)
      → ((r : A) → p (f r) ≡ p r)
      → find p (update q f rows) ≡ Option.map (λ r. if q r then f r else r) (find p rows)
  unfolding find update
  find-update p q f [] keep = refl
  find-update p q f (r ∷ rows) keep = ground (arith, keep r, find-update p q f rows keep)

  pub find-update_ne :
      (p q : A → Bool) (f : A → A) (rows : List A)
      → ((r : A) → p (f r) ≡ p r)
      → ((r : A) → p r ≡ true → q r ≡ false)
      → find p (update q f rows) ≡ find p rows
  unfolding find update
  find-update_ne p q f [] keep apart = refl
  find-update_ne p q f (r ∷ rows) keep apart =
      ground (arith, keep r, apart r, find-update_ne p q f rows keep apart)

  -- An update that keeps what the test reads neither hides nor uncovers a row.
  pub is_some-find-update :
      (p q : A → Bool) (f : A → A) (rows : List A)
      → ((r : A) → p (f r) ≡ p r)
      → is_some (find p (update q f rows)) ≡ is_some (find p rows)
  is_some-find-update p q f rows keep = rw (find-update p q f rows keep) (ground arith)

  -- The row found satisfies the test.
  pub find_sound : (p : A → Bool) (rows : List A) {r : A} → find p rows ≡ some r → p r ≡ true
  unfolding find
  find_sound p [] h = cc
  find_sound p (x ∷ rows) {r} h = ground (arith, find_sound p rows {r = r})

  pub find-delete_self : (p : A → Bool) (rows : List A) → find p (delete p rows) ≡ none
  unfolding find delete
  find-delete_self p [] = refl
  find-delete_self p (r ∷ rows) = ground (arith, find-delete_self p rows)

  pub find-delete_ne :
      (p q : A → Bool) (rows : List A)
      → ((r : A) → p r ≡ true → q r ≡ false)
      → find p (delete q rows) ≡ find p rows
  unfolding find delete
  find-delete_ne p q [] h = refl
  find-delete_ne p q (r ∷ rows) h = ground (arith, h r, find-delete_ne p q rows h)

  pub find-delete_kept :
      (p q : A → Bool) (rows : List A) {r : A}
      → find p rows ≡ some r
      → q r ≡ false
      → find p (delete q rows) ≡ some r
  unfolding find delete
  find-delete_kept p q [] h k = cc
  find-delete_kept p q (x ∷ rows) {r} h k = elim (Bool-cases (p x)) [
    | inl e ↦ ground arith
    | inr e ↦ ground (arith, find-delete_kept p q rows {r = r})
  ]

  pub find-append_none :
      (p : A → Bool) (rows : List A) (r : A)
      → find p rows ≡ none
      → find p (rows ++ r ∷ []) ≡ (if p r then some r else none)
  unfolding find
  find-append_none p [] r h = refl
  find-append_none p (x ∷ rows) r h = ground (arith, find-append_none p rows r)

  pub find-append_some :
      (p : A → Bool) (rows more : List A) {r : A}
      → find p rows ≡ some r
      → find p (rows ++ more) ≡ some r
  unfolding find
  find-append_some p [] more h = cc
  find-append_some p (x ∷ rows) more {r} h = ground (arith, find-append_some p rows more {r = r})

  pub find-append_ne :
      (p : A → Bool) (rows : List A) (r : A) → p r ≡ false → find p (rows ++ r ∷ []) ≡ find p rows
  unfolding find
  find-append_ne p [] r h = rw h refl
  find-append_ne p (x ∷ rows) r h = ground (arith, find-append_ne p rows r h)

  pub is_some-find-append :
      (p : A → Bool) (rows : List A) (r : A) → p r ≡ true → is_some (find p (rows ++ r ∷ [])) ≡ true
  unfolding find
  is_some-find-append p [] r h = rw h refl
  is_some-find-append p (x ∷ rows) r h = ground (arith, is_some-find-append p rows r h)

  -- An update among rows that a test does not accept, before or after, is not seen by the test.
  pub find-update_apart :
      (p q : A → Bool) (f : A → A) (rows : List A)
      → ((r : A) → q r ≡ true → (p r ≡ false) × (p (f r) ≡ false))
      → find p (update q f rows) ≡ find p rows
  unfolding find update
  find-update_apart p q f [] apart = refl
  find-update_apart p q f (r ∷ rows) apart =
      ground (arith, apart r, find-update_apart p q f rows apart)

  pub update_absent :
      (p : A → Bool) (f : A → A) (rows : List A) → find p rows ≡ none → update p f rows ≡ rows
  unfolding find update
  update_absent p f [] h = refl
  update_absent p f (r ∷ rows) h = ground (arith, update_absent p f rows)

  pub length-update :
      (p : A → Bool) (f : A → A) (rows : List A) → length (update p f rows) ≡ length rows
  unfolding update
  length-update p f [] = refl
  length-update p f (r ∷ rows) = ap suc (length-update p f rows)

  pub count-le-length : (p : A → Bool) (rows : List A) → count p rows ≤ length rows
  unfolding count
  count-le-length p [] = omega arith
  count-le-length p (r ∷ rows) = ground (arith, count-le-length p rows)

  pub count-append :
      (p : A → Bool) (rows more : List A) → count p (rows ++ more) ≡ count p rows + count p more
  unfolding count
  count-append p [] more = omega arith
  count-append p (r ∷ rows) more = ground (arith, count-append p rows more)

module _ {ℓ κ} {A : Type ℓ} (P : A → Type κ) where
  pub All-update :
      (p : A → Bool) (f : A → A) (rows : List A)
      → ((r : A) → p r ≡ true → P r → P (f r))
      → All P rows
      → All P (update p f rows)
  unfolding update
  All-update p f [] keep h = tt
  All-update p f (r ∷ rows) keep h = elim (Bool-cases (p r)) [
    | inl e ↦ rw e (keep r e h.0, All-update p f rows keep h.1)
    | inr e ↦ rw e (h.0, All-update p f rows keep h.1)
  ]

  pub All-delete : (p : A → Bool) (rows : List A) → All P rows → All P (delete p rows)
  unfolding delete
  All-delete p [] h = tt
  All-delete p (r ∷ rows) h = elim (Bool-cases (p r)) [
    | inl e ↦ rw e (All-delete p rows h.1)
    | inr e ↦ rw e (h.0, All-delete p rows h.1)
  ]

  pub All-select : (p : A → Bool) (rows : List A) → All P rows → All P (select p rows)
  unfolding select
  All-select p [] h = tt
  All-select p (r ∷ rows) h = elim (Bool-cases (p r)) [
    | inl e ↦ rw e (h.0, All-select p rows h.1)
    | inr e ↦ rw e (All-select p rows h.1)
  ]

  pub All-find : (p : A → Bool) (rows : List A) {r : A} → All P rows → find p rows ≡ some r → P r
  unfolding find
  All-find p [] h e = cc
  All-find p (x ∷ rows) {r} h e = elim (Bool-cases (p x)) [
    | inl t ↦ subst P (ground arith) h.0
    | inr t ↦ All-find p rows {r = r} h.1 (ground arith)
  ]

-- A row that the deletion test leaves is a row of the table that fails it.
pub All-delete_self {ℓ} :
    {A : Type ℓ} (p : A → Bool) (rows : List A) → All (λ r. p r ≡ false) (delete p rows)
unfolding delete
All-delete_self p [] = tt
All-delete_self p (r ∷ rows) = elim (Bool-cases (p r)) [
  | inl e ↦ rw e (All-delete_self p rows)
  | inr e ↦ rw (e, delete) (e, All-delete_self p rows)
]

pub All-select_self {ℓ} :
    {A : Type ℓ} (p : A → Bool) (rows : List A) → All (λ r. p r ≡ true) (select p rows)
unfolding select
All-select_self p [] = tt
All-select_self p (r ∷ rows) = elim (Bool-cases (p r)) [
  | inl e ↦ rw (e, select) (e, All-select_self p rows)
  | inr e ↦ rw e (All-select_self p rows)
]

-- The row that an update by its own test finds is the updated one.
pub find-update_found {ℓ} :
    {A : Type ℓ} (p : A → Bool) (f : A → A) (rows : List A) {r : A}
    → ((x : A) → p (f x) ≡ p x)
    → find p rows ≡ some r
    → find p (update p f rows) ≡ some (f r)
find-update_found p f rows {r} keep there =
    find-update p p f rows keep ∙ rw there (rw (find_sound p rows there))

module _ {ℓ} {A : Type ℓ} where
  -- An update that takes every row that it touches out of its own test leaves none.
  pub find-update_cleared :
      (p : A → Bool) (f : A → A) (rows : List A)
      → ((r : A) → p (f r) ≡ false)
      → find p (update p f rows) ≡ none
  unfolding find update
  find-update_cleared p f [] clear = refl
  find-update_cleared p f (r ∷ rows) clear =
      ground (arith, clear r, find-update_cleared p f rows clear)
