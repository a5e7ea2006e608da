-- ===== src/Prelude/Chars.antt =====
-- Texts that the program takes apart, as lists of code points: Python's `str` methods, and the
-- pieces of the regular expressions that it matches (the digits and letters of ASCII, the
-- blanks and line breaks of Unicode).
pub mod Scan
pub mod Blanks
pub mod Lines
pub mod Spans
pub mod Decimals
pub mod Integers
use Prim.Native.Char.{code}
use Prim.Native.String.{String}
use Prim.Native.Nat.{ℕ, zero, suc, ◌+◌, ◌-◌, ◌*◌, ◌/◌, ◌%◌}
use mathlib.Core.Bool.{not, Bool, true, false, ◌&&◌, ◌||◌}
use mathlib.Core.List.{List, [], ◌∷◌, ◌++◌}
use mathlib.Core.Path.{◌≡◌, refl}
use mathlib.Core.Logic.{◌↔◌}
use native.Mathlib.Omega.{arith}
use snapshot_drive.Prelude.Tests.{◌==◌, leb, if◌then◌else◌}

abbrev pub Chars : Type 0
Chars = List ℕ

abbrev pub chars : String → Chars
chars String.[] = []
chars (String.◌∷◌ c s) = code c ∷ chars s

-- s == t
unfoldable pub same : Chars → Chars → Bool
same [] [] = true
same (a ∷ s) (b ∷ t) = a == b && same s t
same _ _ = false

pub same_iff : (s t : Chars) → (same s t ≡ true) ↔ (s ≡ t)
unfolding same
same_iff (a ∷ s) (b ∷ t) = ground (arith, same_iff s t)
same_iff _ _ = ground arith

pub same_self : (s : Chars) → same s s ≡ true
same_self s = (same_iff s s).1 refl

-- s.startswith(word)
unfoldable pub starts_with : Chars → Chars → Bool
starts_with s [] = true
starts_with [] (k ∷ word) = false
starts_with (c ∷ s) (k ∷ word) = k == c && starts_with s word

-- word in s
unfoldable pub contains : Chars → Chars → Bool
unfolding starts_with
contains [] word = starts_with [] word
contains (c ∷ s) word = starts_with (c ∷ s) word || contains s word

-- s in names
unfoldable pub one_of : Chars → List Chars → Bool
one_of s [] = false
one_of s (t ∷ rest) = same s t || one_of s rest

-- the blanks beyond ASCII
unfoldable pub is_wide_blank : ℕ → Bool
is_wide_blank c =
    c == 133
    || c == 160
    || c == 5760
    || (leb 8192 c && leb c 8202)
    || c == 8232
    || c == 8233
    || c == 8239
    || c == 8287
    || c == 12288

-- `\s`, and what `strip` drops
abbrev pub is_blank : ℕ → Bool
is_blank c =
    c == 32 || (leb 9 c && leb c 13) || (leb 28 c && leb c 31) || (leb 133 c && is_wide_blank c)

-- `\d`
abbrev pub is_digit : ℕ → Bool
is_digit c = leb 48 c && leb c 57

abbrev pub is_upper : ℕ → Bool
is_upper c = leb 65 c && leb c 90

-- c.lower()
abbrev lower_code : ℕ → ℕ
lower_code c = if is_upper c then c + 32 else c

-- s.lower()
unfoldable pub lower : Chars → Chars
lower [] = []
lower (c ∷ s) = lower_code c ∷ lower s

-- s.lstrip(); the `\s*` of a pattern
unfoldable pub lstrip : Chars → Chars
lstrip [] = []
lstrip (c ∷ s) = let rest = lstrip s in if is_blank c then rest else c ∷ s

-- a blank is dropped where nothing but blanks follows
abbrev pub cons_stripped : ℕ → Chars → Chars
cons_stripped c [] = if is_blank c then [] else c ∷ []
cons_stripped c (d ∷ s) = c ∷ d ∷ s

-- s.rstrip()
unfoldable pub rstrip : Chars → Chars
rstrip [] = []
rstrip (c ∷ s) = cons_stripped c (rstrip s)

-- s.strip()
unfoldable pub strip : Chars → Chars
unfolding lstrip rstrip
strip s = rstrip (lstrip s)

-- a or b, of two texts
unfoldable pub or_else : Chars → Chars → Chars
or_else [] other = other
or_else (c ∷ s) other = c ∷ s

-- the next line, the line separator and the paragraph separator of Unicode
unfoldable pub is_wide_break : ℕ → Bool
is_wide_break c = c == 133 || c == 8232 || c == 8233

-- where `splitlines` ends a line; a text read from a file has no carriage return
abbrev pub is_break : ℕ → Bool
is_break c = (leb 10 c && leb c 13) || (leb 28 c && leb c 30) || (leb 133 c && is_wide_break c)

abbrev pub unbroken : ℕ → Bool
unbroken c = not (is_break c)

-- a character in front of the first line
abbrev pub onto_first : ℕ → List Chars → List Chars
onto_first c [] = (c ∷ []) ∷ []
onto_first c (l ∷ ls) = (c ∷ l) ∷ ls

-- s.splitlines(): a break at the end opens no further line
unfoldable pub split_lines : Chars → List Chars
split_lines [] = []
split_lines (c ∷ s) =
    let rest = split_lines s in if is_break c then [] ∷ rest else onto_first c rest

-- "\n".join(lines)
unfoldable pub join_lines : List Chars → Chars
join_lines [] = []
join_lines (l ∷ []) = l
join_lines (l ∷ m ∷ ls) = l ++ (10 ∷ join_lines (m ∷ ls))

-- the digits of a number, on fuel: a number has no more digits than its successor
digits : ℕ → ℕ → Chars → Chars
digits zero n acc = acc
digits (suc fuel) n acc =
    let shown = (48 + n % 10) ∷ acc in
    let rest = digits fuel (n / 10) shown in if n / 10 == 0 then shown else rest

-- str(n)
unfoldable pub decimal : ℕ → Chars
unfolding digits
decimal n = digits (suc n) n []

-- f"{n:02d}" for n < 100
abbrev pub two_digits : ℕ → Chars
two_digits n = (48 + n / 10) ∷ (48 + n % 10) ∷ []

-- int(s) of a text of digits, read on from a number
unfoldable pub value_from : ℕ → Chars → ℕ
value_from n [] = n
value_from n (c ∷ s) = value_from (10 * n + (c - 48)) s

lines_of_file : split_lines (chars "a=1\n\n b\n") ≡ chars "a=1" ∷ [] ∷ chars " b" ∷ []
unfolding split_lines
lines_of_file = refl

decimal_413 : decimal 413 ≡ chars "413"
unfolding decimal
decimal_413 = refl
