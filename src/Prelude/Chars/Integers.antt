-- ===== src/Prelude/Chars/Integers.antt =====
-- int(s) of a text: blanks around, a sign, digits with single underscores between them.
use snapshot_drive.Prelude.{
  ℕ, zero, suc, ◌+◌, ◌-◌, ◌*◌, ◌≡◌, refl, Option, none, some, [], ◌∷◌, ◌==◌, if◌then◌else◌,
}
use snapshot_drive.Prelude.Chars.{Chars, chars, is_digit, strip}

-- `negsuc n` is -(n + 1)
pub data ℤ : Type 0 where
  pos : ℕ → ℤ
  negsuc : ℕ → ℤ

digits_after : ℕ → Chars → Option ℕ
digits_after n [] = some n
digits_after n (c ∷ []) = if is_digit c then some (10 * n + (c - 48)) else none
digits_after n (c ∷ d ∷ s) =
    let next = digits_after (10 * n + (c - 48)) (d ∷ s) in
    let joined = digits_after (10 * n + (d - 48)) s in
    if is_digit c then next else if c == b'_' then (if is_digit d then joined else none) else none

unsigned : Chars → Option ℕ
unfolding digits_after
unsigned [] = none
unsigned (c ∷ s) = if is_digit c then digits_after (c - 48) s else none

abbrev minus : ℕ → ℤ
minus n = elim n [ zero ↦ pos 0 | suc m ↦ negsuc m ]

signed : Chars → Option ℤ
unfolding unsigned
signed [] = none
signed (c ∷ s) =
    if c == b'-'
    then elim (unsigned s) [ none ↦ none | some n ↦ some (minus n) ]
    else elim (unsigned (if c == b'+' then s else c ∷ s)) [ none ↦ none | some n ↦ some (pos n) ]

unfoldable pub int_of : Chars → Option ℤ
unfolding signed
int_of s = signed (strip s)

int_of_1_000 : int_of (chars " 1_000 ") ≡ some (pos 1000)
unfolding int_of strip
int_of_1_000 = refl
