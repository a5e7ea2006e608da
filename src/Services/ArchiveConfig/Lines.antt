-- ===== src/Services/ArchiveConfig/Lines.antt =====
-- backend/services/archive_config.py: one line of snapshot.local.conf, read and written.
pub mod Shown
use snapshot_drive.Services.ConfFile.{unreadable, missing, text, put, File}
use snapshot_drive.Prelude.{
  List, ℕ, Bool, false, not, ◌&&◌, ◌||◌, Option, none, some, [], ◌∷◌, ◌++◌, ◌==◌, if◌then◌else◌,
  ◌≡◌, refl,
}
use snapshot_drive.Prelude.Chars.{
  split_lines, strip, Chars, chars, lstrip, is_blank, is_digit, is_upper,
}
use snapshot_drive.Prelude.Chars.Scan.{◌>>=◌, span, comment_or_end, every}

-- `[A-Z_]`
abbrev pub opens_name : ℕ → Bool
opens_name c = is_upper c || c == b'_'

-- `[A-Z0-9_]`
abbrev pub in_name : ℕ → Bool
in_name c = is_upper c || is_digit c || c == b'_'

-- `[A-Z_][A-Z0-9_]*`, of a whole text
abbrev pub is_name : Chars → Bool
is_name [] = false
is_name (c ∷ s) = opens_name c && every in_name s

-- the closing quote, `\s*(?:#.*)?$`
abbrev pub at_close : Chars × Chars → Option Chars
at_close (body, []) = none
at_close (body, closing ∷ more) = elim (comment_or_end (lstrip more)) [
  | none ↦ none
  | some end ↦ some body
]

-- `"([^"]*)"\s*(?:#.*)?$`, after the opening quote, for either quote
unfoldable pub quoted : ℕ → Chars → Option Chars
quoted quote s = at_close (span (λ c. not (c == quote)) s)

-- the part of a text before its last `#`
unfoldable pub before_hash : Chars → Option Chars
before_hash [] = none
before_hash (c ∷ s) = elim (before_hash s) [
  | some front ↦ some (c ∷ front)
  | none ↦ if c == b'#' then some [] else none
]

-- `(\S*)\s*(?:#.*)?$`: the longest run that leaves a comment or nothing behind it
unfoldable pub bare : Chars → Option Chars
unfolding before_hash
bare s =
    let (run, rest) = span (λ c. not (is_blank c)) s in
    elim (comment_or_end (lstrip rest)) [ some end ↦ some run | none ↦ before_hash run ]

abbrev pub or_bare : Option Chars → Chars → Option Chars
or_bare (some value) s = some value
or_bare none s = bare s

-- the three alternatives, in their order
unfoldable pub value_of : Chars → Option Chars
unfolding quoted bare
value_of [] = some []
value_of (c ∷ s) = or_bare (if c == b'"' || c == b'\'' then quoted c s else none) (c ∷ s)

abbrev split_equals : Chars → Option Chars
split_equals [] = none
split_equals (c ∷ s) = if c == b'=' then some s else none

-- `=` and the value
unfoldable pub named : Chars → Chars → Option (Chars × Chars)
named name s = do r ← split_equals s; v ← value_of r; some (name, v)

-- the whole pattern, on a stripped line
unfoldable pub entry : Chars → Option (Chars × Chars)
unfolding named
entry s = let (name, rest) = span in_name s in if is_name name then named name rest else none

abbrev pub put_entry : List (Chars × Chars) → Option (Chars × Chars) → List (Chars × Chars)
put_entry found none = found
put_entry found (some (k, v)) = put k v found

-- one round of the loop of `_read`; an empty line and a comment have no entry
unfoldable pub read_line : List (Chars × Chars) → Chars → List (Chars × Chars)
unfolding entry
read_line found line = put_entry found (entry (strip line))

unfoldable pub read_lines : List (Chars × Chars) → List Chars → List (Chars × Chars)
read_lines found [] = found
read_lines found (line ∷ lines) = read_lines (read_line found line) lines

-- `_read`
unfoldable pub read_conf : File → List (Chars × Chars)
unfolding read_lines
read_conf missing = []
read_conf unreadable = []
read_conf (text s) = read_lines [] (split_lines s)

-- f'{k}="{v}"'
unfoldable pub show_line : Chars → Chars → Chars
show_line k v = k ++ (b'=' ∷ b'"' ∷ (v ++ (b'"' ∷ [])))

entry_comment : entry (chars "A_1='x y' # z") ≡ some (chars "A_1", chars "x y")
unfolding entry named value_of quoted bare span every lstrip
entry_comment = refl

entry_hash : entry (chars "A=\"a#b c") ≡ some (chars "A", chars "\"a")
unfolding entry named value_of quoted bare span every lstrip before_hash
entry_hash = refl

entry-none : entry (chars "# A=1") ≡ none
unfolding entry span
entry-none = refl
