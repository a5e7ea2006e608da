-- ===== src/Services/ConfFile.antt =====
-- The configuration files of backend/services, lines of `KEY=value`: how `set_retention` of
-- scheduler.py and `_write_back` of archive_config.py rewrite them, and what reads them. A
-- function `show` gives the new line of a key.
pub mod Rewritten
pub mod Latest
pub mod Joined
use snapshot_drive.Prelude.{
  Bool, true, false, not, ◌&&◌, ◌||◌, Option, none, some, List, [], ◌∷◌, ◌++◌, map, ◌==◌, ◌≡◌,
  is_some, if◌then◌else◌,
}
use snapshot_drive.Prelude.Chars.{Chars, same, lstrip, rstrip, is_blank, join_lines}
use snapshot_drive.Prelude.Chars.Scan.{literal, every}

-- a file: not there, there and not readable, or a text
pub data File : Type 0 where
  missing unreadable : File
  text : Chars → File

-- p.exists()
abbrev pub exists : File → Bool
exists missing = false
exists unreadable = true
exists (text s) = true

abbrev pub at_equals : Chars → Bool
at_equals [] = false
at_equals (c ∷ s) = c == b'='

-- what follows a key: `\s*` and `=`
abbrev pub at_rest : Option Chars → Bool
at_rest none = false
at_rest (some r) = at_equals (lstrip r)

-- the key at the front, `\s*` and `=`
unfoldable pub assigned : Chars → Chars → Bool
assigned k s = at_rest (literal k s)

-- re.match(rf'^\s*{k}\s*=', line)
unfoldable pub assigns : Chars → Chars → Bool
unfolding assigned
assigns k line = assigned k (lstrip line)

-- d.get(key), of a dict as the list of its pairs
unfoldable pub lookup {ℓ} : {V : Type ℓ} → Chars → List (Chars × V) → Option V
lookup k [] = none
lookup k ((j, v) ∷ rest) = let found = lookup k rest in if same j k then some v else found

-- d[key] = value: an old key keeps its place
unfoldable pub put {ℓ} : {V : Type ℓ} → Chars → V → List (Chars × V) → List (Chars × V)
put k v [] = (k, v) ∷ []
put k v ((j, w) ∷ rest) =
    let later = put k v rest in if same j k then (k, v) ∷ rest else (j, w) ∷ later

module _ {V : Type 0} where
  -- the first update whose key the line assigns
  unfoldable pub match_update : List (Chars × V) → Chars → Option (Chars × V)
  match_update [] line = none
  match_update ((k, v) ∷ ups) line =
      let later = match_update ups line in if assigns k line then some (k, v) else later

  -- the update is that of the key
  abbrev pub takes : Option (Chars × V) → Chars → Bool
  takes none k = false
  takes (some (j, v)) k = same j k

  -- k in seen, after the loop over the lines
  unfoldable pub is_seen : List (Chars × V) → Chars → List Chars → Bool
  unfolding match_update
  is_seen ups k [] = false
  is_seen ups k (line ∷ lines) = takes (match_update ups line) k || is_seen ups k lines

module _ {V : Type 0} (show : Chars → V → Chars) where
  abbrev pub shown_or : Chars → Option (Chars × V) → Chars
  shown_or line none = line
  shown_or line (some (k, v)) = show k v

  unfoldable pub rewrite_line : List (Chars × V) → Chars → Chars
  unfolding match_update
  rewrite_line ups line = shown_or line (match_update ups line)

  -- the lines of the keys that were not seen
  unfoldable pub additions : List (Chars × V) → List Chars → List (Chars × V) → List Chars
  unfolding is_seen
  additions ups lines [] = []
  additions ups lines ((k, v) ∷ rest) =
      let later = additions ups lines rest in
      if is_seen ups k lines then later else show k v ∷ later

  -- every line that assigns a key is replaced, and the missing keys come last
  unfoldable pub rewrite_lines : List (Chars × V) → List Chars → List Chars
  unfolding rewrite_line additions
  rewrite_lines ups lines = map (rewrite_line ups) lines ++ additions ups lines ups

-- "\n".join(lines).rstrip() + "\n"
unfoldable pub trimmed_text : List Chars → Chars
trimmed_text lines = rstrip (join_lines lines) ++ (10 ∷ [])

-- text.endswith("\n")
unfoldable pub ends_line : Chars → Bool
ends_line [] = false
ends_line (c ∷ []) = c == 10
ends_line (c ∷ d ∷ s) = ends_line (d ∷ s)

-- "\n".join(lines), with a line feed at the end if it has none
unfoldable pub closed_text : List Chars → Chars
unfolding ends_line
closed_text lines = let s = join_lines lines in if ends_line s then s else s ++ (10 ∷ [])

-- a key: no blank and no equals sign
abbrev pub is_key : Chars → Bool
is_key k = every (λ c. not (is_blank c) && not (c == b'=')) k

-- The keys are keys, and no two are the same.
unfoldable pub are_keys {ℓ} : {V : Type ℓ} → List (Chars × V) → Bool
are_keys [] = true
are_keys ((k, v) ∷ rest) =
    is_key k && (elim (lookup k rest) [ none ↦ true | some w ↦ false ] && are_keys rest)

-- A format of lines: what an update writes for a key, the value that this line stands for, and
-- what reads a line. A line that is read for a key assigns it.
pub record Format (V W : Type 0) : Type 0 where
  pub show : Chars → V → Chars
  pub value : V → W
  pub reads : Chars → Chars → Option W
  pub reads_rstrip : (k line : Chars) → reads k (rstrip line) ≡ reads k line
  pub reads_assigns :
      (k line : Chars) → is_key k ≡ true → is_some (reads k line) ≡ true → assigns k line ≡ true

-- what counts after one more line
abbrev pub later {ℓ} : {W : Type ℓ} → Option W → Option W → Option W
later found none = found
later found (some w) = some w

module _ {V W : Type 0} (f : Format V W) where
  -- the value of a key after some lines: that of the last line that has it
  unfoldable pub latest : Chars → Option W → List Chars → Option W
  latest j found [] = found
  latest j found (line ∷ lines) = latest j (later found (f.reads j line)) lines

  -- Every line that is written for an update reads as its value.
  abbrev pub AreShown : List (Chars × V) → Type 0
  AreShown [] = Unit
  AreShown ((k, v) ∷ ups) = (f.reads k (f.show k v) ≡ some (f.value v)) × AreShown ups
