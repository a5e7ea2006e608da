-- ===== src/Central/Schema/Names.antt =====
-- backend/central/schema.py: the names that _PATH_SAFE lets through, by their characters.
use Prim.Native.Char.{Char, code}
use snapshot_drive.Prelude.{
  ℕ, zero, suc, ◌≤◌, String, ◌≡◌, refl, ap, Bool, true, ◌&&◌, ◌||◌, ◌==◌, leb, inl, inr, ◌⊎◌, arith,
  Bool-cases,
}
use snapshot_drive.Prelude.Text.{size, is_empty}
use snapshot_drive.Central.Schema.{is_safe_char, matches_tail, path_safe}

-- s + d
abbrev pub with_last : Char → String → String
with_last d String.[] = String.◌∷◌ d String.[]
with_last d (String.◌∷◌ c s) = String.◌∷◌ c (with_last d s)

-- The text, or the text and a line feed.
abbrev pub IsClosed : String → String → Type 0
IsClosed body s = (s ≡ body) ⊎ ((d : Char) × (code d ≡ 10) × (s ≡ with_last d body))

-- a letter or a digit of ASCII, a dot, a dash or an underscore, by its code point
abbrev pub in_name : ℕ → Bool
in_name c =
    (leb 48 c && leb c 57)
    || (leb 65 c && leb c 90)
    || (leb 97 c && leb c 122)
    || c == 45
    || c == 46
    || c == 95

abbrev pub all_in_name : String → Bool
all_in_name String.[] = true
all_in_name (String.◌∷◌ c s) = in_name (code c) && all_in_name s

-- A text of such characters, with at most one line feed behind it.
abbrev pub IsEnded : ℕ → String → Type 0
IsEnded room s = (body : String) × (all_in_name body ≡ true) × (size body ≤ room) × IsClosed body s

-- A name: 1 to 64 such characters, with at most one line feed behind them.
abbrev pub IsName : String → Type 0
IsName s =
    (body : String) × (all_in_name body ≡ true)
    × (1 ≤ size body)
    × (size body ≤ 64)
    × IsClosed body s

is_safe_char-in_name : (c : Char) → is_safe_char c ≡ true → in_name (code c) ≡ true
unfolding is_safe_char
is_safe_char-in_name c h = ground arith

ends_here :
    (c : Char) (s : String)
    → (code c == 10 && is_empty s) ≡ true
    → IsClosed String.[] (String.◌∷◌ c s)
ends_here c String.[] h = inr (c, ground arith, refl)
ends_here c (String.◌∷◌ d s) h = ground arith

cons-IsClosed :
    (c : Char) (body s : String) → IsClosed body s → IsClosed (String.◌∷◌ c body) (String.◌∷◌ c s)
cons-IsClosed c body s (inl is) = inl (ap (String.◌∷◌ c) is)
cons-IsClosed c body s (inr (d, feed, is)) = inr (d, feed, ap (String.◌∷◌ c) is)

cons-IsEnded :
    (room : ℕ) (c : Char) (s : String)
    → in_name (code c) ≡ true
    → IsEnded room s
    → IsEnded (suc room) (String.◌∷◌ c s)
unfolding size
cons-IsEnded room c s h (body, codes, fits, is) =
    (String.◌∷◌ c body, rw h codes, omega arith, cons-IsClosed c body s is)

matches_tail-IsEnded : (room : ℕ) (s : String) → matches_tail room s ≡ true → IsEnded room s
unfolding matches_tail size
matches_tail-IsEnded room String.[] h = (String.[], refl, omega arith, inl refl)
matches_tail-IsEnded zero (String.◌∷◌ c s) h = (String.[], refl, omega arith, ends_here c s h)
matches_tail-IsEnded (suc room) (String.◌∷◌ c s) h = elim (Bool-cases (is_safe_char c)) [
  | inl safe ↦
      cons-IsEnded room c s (is_safe_char-in_name c safe)
        (matches_tail-IsEnded room s (rw safe at h))
  | inr other ↦ (String.[], refl, omega arith, ends_here c s (rw other at h))
]

-- What _PATH_SAFE matches is a name.
pub path_safe-IsName : (s : String) → path_safe s ≡ true → IsName s
unfolding path_safe size
path_safe-IsName String.[] h = cc
path_safe-IsName (String.◌∷◌ c s) h =
    let (body, codes, fits, is) = matches_tail-IsEnded 63 s (ground arith) in
    let first = is_safe_char-in_name c (ground arith) in
    (String.◌∷◌ c body, rw first codes, omega arith, omega arith, cons-IsClosed c body s is)
