-- ===== src/Prelude/Text.antt =====
-- Python's `str` methods that the program calls, over the native texts (ASCII letters and blanks).
use snapshot_drive.Prelude.{
  ℕ, zero, suc, ◌/◌, ◌%◌, String, ◌≡◌, refl, Bool, true, false, ◌&&◌, ◌||◌, none, some, leb, ◌==◌,
  if◌then◌else◌,
}
use Prim.Native.Char.{Char, code}
use Prim.Native.String.{String}
use Prim.Native.Nat.{ℕ, zero, suc, ◌/◌, ◌%◌}
use mathlib.Core.Bool.{Bool, true, false, ◌&&◌, ◌||◌}
use mathlib.Core.Path.{◌≡◌, refl}
use mathlib.Core.Option.{none, some}
use snapshot_drive.Prelude.Tests.{◌==◌, leb, if◌then◌else◌}
use text.Mathlib.Text.{find?}

-- the letter of `to` in the place that the letter has in `from`
translate : String → String → Char → Char
translate String.[] _ c = c
translate (String.◌∷◌ u us) String.[] c = c
translate (String.◌∷◌ u us) (String.◌∷◌ l ls) c =
    let rest = translate us ls c in if code u == code c then l else rest

lower_char : Char → Char
unfolding translate
lower_char c = translate "ABCDEFGHIJKLMNOPQRSTUVWXYZ" "abcdefghijklmnopqrstuvwxyz" c

-- s.lower()
unfoldable pub lower : String → String
unfolding lower_char
lower String.[] = ""
lower (String.◌∷◌ c s) = String.◌∷◌ (lower_char c) (lower s)

is_space : Char → Bool
is_space c = code c == 32 || (leb 9 (code c) && leb (code c) 13)

lstrip : String → String
lstrip String.[] = ""
lstrip (String.◌∷◌ c s) = let rest = lstrip s in if is_space c then rest else String.◌∷◌ c s

-- a blank is dropped where nothing but blanks follows
cons_stripped : Char → String → String
cons_stripped c String.[] = if is_space c then "" else String.◌∷◌ c ""
cons_stripped c (String.◌∷◌ d s) = String.◌∷◌ c (String.◌∷◌ d s)

rstrip : String → String
rstrip String.[] = ""
rstrip (String.◌∷◌ c s) = cons_stripped c (rstrip s)

-- s.strip()
unfoldable pub strip : String → String
unfolding lstrip cons_stripped rstrip is_space
strip s = rstrip (lstrip s)

-- len(s)
unfoldable pub size : String → ℕ
size String.[] = 0
size (String.◌∷◌ c s) = suc (size s)

-- s[:n]
unfoldable pub prefix : ℕ → String → String
prefix zero s = ""
prefix (suc n) String.[] = ""
prefix (suc n) (String.◌∷◌ c s) = String.◌∷◌ c (prefix n s)

-- s[n:]
unfoldable pub suffix : ℕ → String → String
suffix zero s = s
suffix (suc n) String.[] = ""
suffix (suc n) (String.◌∷◌ c s) = suffix n s

-- sub in s
unfoldable pub contains : String → String → Bool
contains s sub = elim (find? s sub) [ some _ ↦ true | none ↦ false ]

-- s.split(sep)[0] for a separator of one character
unfoldable pub before : ℕ → String → String
before sep String.[] = ""
before sep (String.◌∷◌ c s) =
    let rest = before sep s in if code c == sep then "" else String.◌∷◌ c rest

-- `bool(s)`: a text is true if it is not empty
abbrev pub is_empty : String → Bool
is_empty String.[] = true
is_empty (String.◌∷◌ c s) = false

lower-strip : lower (strip "  Ana@X.org ") ≡ "ana@x.org"
unfolding lower strip
lower-strip = refl

before_at : before b'@' "ana@x.org" ≡ "ana"
unfolding before
before_at = refl

nth : ℕ → String → Char
nth n String.[] = "0"
nth zero (String.◌∷◌ c s) = c
nth (suc n) (String.◌∷◌ c s) = nth n s

digit : ℕ → Char
unfolding nth
digit n = nth n "0123456789"

-- the digits of a number, on fuel: a number has no more digits than its successor
digits : ℕ → ℕ → String → String
digits zero n acc = acc
digits (suc fuel) n acc =
    let shown = String.◌∷◌ (digit (n % 10)) acc in
    let rest = digits fuel (n / 10) shown in if n / 10 == 0 then shown else rest

-- str(n)
unfoldable pub decimal : ℕ → String
unfolding digit digits
decimal n = digits (suc n) n ""

decimal_413 : decimal 413 ≡ "413"
unfolding decimal
decimal_413 = refl
