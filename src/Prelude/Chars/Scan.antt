-- ===== src/Prelude/Chars/Scan.antt =====
-- The pieces of a regular expression: each takes the text that is left and returns what remains,
-- or nothing where the pattern does not match there. The patterns of the program need no
-- backtracking: a piece ends where the next one cannot begin.
use snapshot_drive.Prelude.{
  ℕ, ◌+◌, ◌-◌, ◌*◌, Bool, true, false, Option, none, some, [], ◌∷◌, ◌==◌, if◌then◌else◌,
}
use snapshot_drive.Prelude.Chars.{Chars, is_blank, is_digit, lstrip, value_from}

infixl 5 ◌>>=◌ ◌>>◌
abbrev pub ◌>>=◌ {ℓ κ} : {A : Type ℓ} {B : Type κ} → Option A → (A → Option B) → Option B
none >>= next = none
some found >>= next = next found

abbrev pub ◌>>◌ {ℓ} : {B : Type ℓ} → Option (Unit {0}) → Option B → Option B
check >> next = check >>= λ passed. next

-- a literal; `s.startswith(word)`, with what follows
unfoldable pub literal : Chars → Chars → Option Chars
literal [] s = some s
literal (k ∷ word) [] = none
literal (k ∷ word) (c ∷ s) = let rest = literal word s in if k == c then rest else none

-- `\s+`
unfoldable pub blanks : Chars → Option Chars
unfolding lstrip
blanks [] = none
blanks (c ∷ s) = if is_blank c then some (lstrip s) else none

-- `\d`
abbrev pub digit : Chars → Option (ℕ × Chars)
digit [] = none
digit (c ∷ s) = if is_digit c then some (c, s) else none

-- `\d{2}`, with its two digits
abbrev pub digit_pair : Chars → Option (ℕ × ℕ × Chars)
digit_pair s = do (a, r) ← digit s; (b, r') ← digit r; some (a, b, r')

-- `\d{1,2}`, with its number
abbrev pub short_number : Chars → Option (ℕ × Chars)
short_number s = do
  (a, r) ← digit s
  elim (digit r) [ none ↦ some (a - 48, r) | some (b, r') ↦ some (10 * (a - 48) + (b - 48), r') ]

-- the longest run of characters that pass a test, and what follows
unfoldable pub span : (ℕ → Bool) → Chars → Chars × Chars
span test [] = ([], [])
span test (c ∷ s) = let rest = span test s in if test c then (c ∷ rest.0, rest.1) else ([], c ∷ s)

abbrev pub of_run : Chars × Chars → Option (ℕ × Chars)
of_run ([], rest) = none
of_run (c ∷ run, rest) = some (value_from 0 (c ∷ run), rest)

-- `\d+`, with its number
unfoldable pub number : Chars → Option (ℕ × Chars)
unfolding span value_from
number s = of_run (span is_digit s)

-- `x?` for one character
abbrev pub maybe : ℕ → Chars → Chars
maybe x [] = []
maybe x (c ∷ s) = if c == x then s else c ∷ s

-- the end of the text
abbrev pub ended : Chars → Option (Unit {0})
ended [] = some tt
ended (c ∷ s) = none

-- `(?:#.*)?$` within one line
abbrev pub comment_or_end : Chars → Option (Unit {0})
comment_or_end [] = some tt
comment_or_end (c ∷ s) = if c == b'#' then some tt else none

-- all characters pass the test: `[...]*` to the end
unfoldable pub every : (ℕ → Bool) → Chars → Bool
every test [] = true
every test (c ∷ s) = let rest = every test s in if test c then rest else false
