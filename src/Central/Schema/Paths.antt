-- ===== src/Central/Schema/Paths.antt =====
-- What _PATH_SAFE lets through, and how the inventory's caps bound what it lets through.
use snapshot_drive.Prelude.{
  ℕ, zero, suc, ◌+◌, ◌≤◌, String, ◌≡◌, refl, Bool, true, false, ◌&&◌, ◌||◌, Option, none, some,
  arith, leb, ◌==◌, err, ok, >>=-eq-ok, require, ok_injective,
}
use snapshot_drive.Prelude.Json
use snapshot_drive.Central.Schema.Safe.{require_sound}
use snapshot_drive.Prelude.Json.{Json, Items, Fields, obj, arr, nil, cons}
use snapshot_drive.Prelude.Text.{size}
use Prim.Native.Char.{Char, code}
use snapshot_drive.Central.Schema.{
  is_safe_char, matches_tail, path_safe, check_operation, key_error, require_str, require_path_safe,
  schema_error,
}
use snapshot_drive.Central.Schema.Inventory.{
  check_leaf, check_category, leaf_files, max_files_total, check_files, check_leaves,
  validate_inventory, check_list, max_leaves,
}

-- The text has the character.
abbrev pub has_char : ℕ → String → Bool
has_char c String.[] = false
has_char c (String.◌∷◌ d s) = code d == c || has_char c s

is_safe_char-slash : (c : Char) → is_safe_char c ≡ true → (code c == b'/') ≡ false
unfolding is_safe_char
is_safe_char-slash c h = ground arith

matches_tail-slash : (room : ℕ) (s : String) → matches_tail room s ≡ true → has_char b'/' s ≡ false
unfolding matches_tail
matches_tail-slash room String.[] h = refl
matches_tail-slash zero (String.◌∷◌ c String.[]) h = ground arith
matches_tail-slash zero (String.◌∷◌ c (String.◌∷◌ d s)) h = ground arith
matches_tail-slash (suc room) (String.◌∷◌ c String.[]) h = ground (arith, is_safe_char-slash c)
matches_tail-slash (suc room) (String.◌∷◌ c (String.◌∷◌ d s)) h =
    ground (arith, is_safe_char-slash c, matches_tail-slash room (String.◌∷◌ d s))

matches_tail-size : (room : ℕ) (s : String) → matches_tail room s ≡ true → size s ≤ room + 1
unfolding matches_tail size
matches_tail-size room String.[] h = omega arith
matches_tail-size zero (String.◌∷◌ c String.[]) h = omega arith
matches_tail-size zero (String.◌∷◌ c (String.◌∷◌ d s)) h = ground arith
matches_tail-size (suc room) (String.◌∷◌ c String.[]) h = omega arith
matches_tail-size (suc room) (String.◌∷◌ c (String.◌∷◌ d s)) h =
    ground (arith, matches_tail-size room (String.◌∷◌ d s))

-- A name that the pattern accepts is not empty, has no slash, so it is one component of a path, and
-- has at most 65 characters: 64, and a line feed that the pattern does not count.
pub path_safe_lem :
    (s : String) → path_safe s ≡ true → (1 ≤ size s) × (size s ≤ 65) × (has_char b'/' s ≡ false)
unfolding path_safe size
path_safe_lem String.[] h = cc
path_safe_lem (String.◌∷◌ c s) h =
    ground (arith, is_safe_char-slash c, matches_tail-slash 63 s, matches_tail-size 63 s)

-- s + "\n"
abbrev pub with_line_feed : String → String
with_line_feed String.[] = "\n"
with_line_feed (String.◌∷◌ c s) = String.◌∷◌ c (with_line_feed s)

abbrev pub all_safe : String → Bool
all_safe String.[] = true
all_safe (String.◌∷◌ c s) = is_safe_char c && all_safe s

matches_tail-with_line_feed :
    (room : ℕ) (s : String)
    → all_safe s ≡ true
    → size s ≤ room
    → matches_tail room (with_line_feed s) ≡ true
unfolding matches_tail size is_safe_char
matches_tail-with_line_feed zero String.[] h fits = refl
matches_tail-with_line_feed (suc room) String.[] h fits = refl
matches_tail-with_line_feed zero (String.◌∷◌ c s) h fits = absurd (omega arith)
matches_tail-with_line_feed (suc room) (String.◌∷◌ c s) h fits =
    ground (arith, matches_tail-with_line_feed room s)

has_char-with_line_feed : (s : String) → has_char 10 (with_line_feed s) ≡ true
has_char-with_line_feed String.[] = refl
has_char-with_line_feed (String.◌∷◌ c s) = ground (arith, has_char-with_line_feed s)

-- Every name in safe characters is also accepted with a line feed behind it, although a line feed
-- is none of the characters that the pattern lists.
pub path_safe-with_line_feed :
    (c : Char) (s : String)
    → all_safe (String.◌∷◌ c s) ≡ true
    → size s ≤ 63
    → (path_safe (with_line_feed (String.◌∷◌ c s)) ≡ true)
      × (has_char 10 (with_line_feed (String.◌∷◌ c s)) ≡ true)
unfolding path_safe
path_safe-with_line_feed c s h fits =
    ground (arith, matches_tail-with_line_feed 63 s, has_char-with_line_feed s)

-- An operation block without `op` or without `status` is not refused by a SchemaError: the
-- KeyError of the lookup leaves the validation.
pub check_operation_key_error :
    (text_of : Json → String) (p op : Fields)
    → Json.get_field "operation" p ≡ some (obj op)
    → Json.get_field "op" op ≡ none
    → check_operation text_of p ≡ err key_error
unfolding check_operation
check_operation_key_error text_of p op h absent = ground arith

-- The number of files of the leaves that are dicts with a list of files.
abbrev pub files_in : Option Json → ℕ
files_in (some (arr fs)) = Json.length fs
files_in _ = 0

abbrev pub files_of : Items → ℕ
files_of nil = 0
files_of (cons (obj leaf) rest) = files_in (Json.get_field "files" leaf) + files_of rest
files_of (cons _ rest) = files_of rest

leaf_files_sound :
    (leaf : Fields) {fs : Items}
    → leaf_files leaf ≡ ok fs
    → files_in (Json.get_field "files" leaf) ≡ Json.length fs
unfolding leaf_files
leaf_files_sound leaf h = ground arith

check_leaf_sound :
    (files : ℕ) (leaf : Fields) {counted : ℕ}
    → check_leaf files (obj leaf) ≡ ok counted
    → (counted ≡ files + files_in (Json.get_field "files" leaf)) × (counted ≤ 200)
unfolding check_leaf
check_leaf_sound files leaf h =
    let (_, c, h₁) = >>=-eq-ok (check_category (Json.get_field "category" leaf)) _ h in
    let (subkey, s, h₂) = >>=-eq-ok (require_str "subkey" leaf) _ h₁ in
    let (_, safe, h₃) = >>=-eq-ok (require_path_safe subkey) _ h₂ in
    let (fs, found, h₄) = >>=-eq-ok (leaf_files leaf) _ h₃ in
    let (_, fits, h₅) =
      >>=-eq-ok (require (leb (files + Json.length fs) max_files_total) schema_error) _ h₄ in
    let (_, each, h₆) = >>=-eq-ok (check_files fs) _ h₅ in
    let counted_all = ok_injective h₆ in
    let there = leaf_files_sound leaf found in
    let cap = require_sound (leb (files + Json.length fs) max_files_total) fits in
    (ground arith, ground arith)

check_leaves_sound :
    (files : ℕ) (leaves : Items) {counted : ℕ}
    → files ≤ 200
    → check_leaves files leaves ≡ ok counted
    → (counted ≡ files + files_of leaves) × (counted ≤ 200)
unfolding check_leaves
check_leaves_sound files nil cap h = ground arith
check_leaves_sound files (cons (obj leaf) rest) {counted} cap h =
    let (next, l, h₁) = >>=-eq-ok (check_leaf files (obj leaf)) _ h in
    let (sum, below) = check_leaf_sound files leaf l in
    let (total, last) = check_leaves_sound next rest {counted = counted} below h₁ in
    (omega arith, last)
check_leaves_sound files (cons _ rest) cap h = unfold check_leaf in cc

-- An inventory that the validation lets through has at most 64 leaves, and they have at most 200
-- files together.
pub validate_inventory_bounds :
    (inv : Fields)
    → validate_inventory inv ≡ ok tt
    → (leaves : Items) × (Json.get_field "leaves" inv ≡ some (arr leaves))
      × (Json.length leaves ≤ 64)
      × (files_of leaves ≤ 200)
unfolding validate_inventory
validate_inventory_bounds inv h = at_leaves (Json.get_field "leaves" inv) refl h
  where
    at_leaves :
        (v : Option Json)
        → Json.get_field "leaves" inv ≡ v
        → check_list v ≡ ok tt
        → (leaves : Items) × (Json.get_field "leaves" inv ≡ some (arr leaves))
          × (Json.length leaves ≤ 64)
          × (files_of leaves ≤ 200)
    at_leaves (some (arr leaves)) e q =
        let (_, few, q₁) =
          >>=-eq-ok (require (leb (Json.length leaves) max_leaves) schema_error) _ q in
        let (total, counted, _) = >>=-eq-ok (check_leaves 0 leaves) _ q₁ in
        let (sum, cap) = check_leaves_sound 0 leaves (omega arith) counted in
        let short = require_sound (leb (Json.length leaves) max_leaves) few in
        (leaves, e, ground arith, omega arith)
    at_leaves none e q = cc
    at_leaves (some _) e q = cc
