-- ===== src/Central/Schema/Inventory.antt =====
-- _validate_inventory of backend/central/schema.py. `files` counts the files of the leaves so far.
use snapshot_drive.Prelude.{
  ℕ, ◌+◌, Bool, true, false, ◌&&◌, Option, none, some, leb, ◌==◌, Result, require, ok, err, ◌>>=◌,
  ◌>>◌,
}
use snapshot_drive.Prelude.Json
use snapshot_drive.Prelude.Json.{Json, Items, Fields, boolean, str, arr, obj, nil, cons}
use snapshot_drive.Prelude.Text.{size}
use snapshot_drive.Central.Schema.{
  is_count, schema_error, among, category_values, require_str, type_error, require_path_safe, Error,
}

abbrev pub max_leaves : ℕ
max_leaves = 64

abbrev pub max_files_total : ℕ
max_files_total = 200

-- a str whose length passes the test
abbrev pub is_text : (ℕ → Bool) → Option Json → Bool
is_text fits (some (str s)) = fits (size s)
is_text fits _ = false

abbrev pub is_size : Option Json → Bool
is_size (some v) = is_count v
is_size none = false

-- f.get("encrypted", False) is a bool
abbrev pub is_flag : Option Json → Bool
is_flag none = true
is_flag (some (boolean b)) = true
is_flag _ = false

unfoldable pub file_ok : Fields → Bool
file_ok f =
    is_text (λ n. leb n 256) (Json.get_field "name" f)
    && is_text (λ n. leb n 1024) (Json.get_field "path" f)
    && is_size (Json.get_field "size" f)
    && is_text (λ n. n == 15) (Json.get_field "ts" f)
    && is_flag (Json.get_field "encrypted" f)

unfoldable pub check_file : Json → Result Error (Unit {0})
unfolding file_ok
check_file (obj f) = require (file_ok f) schema_error
check_file _ = err schema_error

unfoldable pub check_files : Items → Result Error (Unit {0})
check_files nil = ok tt
check_files (cons f fs) = do check_file f; check_files fs

-- leaf.get("category") in {"os", "db"}: a list or a dict cannot be hashed
unfoldable pub check_category : Option Json → Result Error (Unit {0})
check_category (some (str s)) = require (among s category_values) schema_error
check_category (some (arr xs)) = err type_error
check_category (some (obj fs)) = err type_error
check_category _ = err schema_error

unfoldable pub leaf_files : Fields → Result Error Items
leaf_files leaf = elim (Json.get_field "files" leaf) [
  | some (arr fs) ↦ ok fs
  | _ ↦ err schema_error
]

-- One leaf, given the files counted before it; returns the files counted with it.
unfoldable pub check_leaf : ℕ → Json → Result Error ℕ
unfolding leaf_files check_category
check_leaf files (obj leaf) = do
  check_category (Json.get_field "category" leaf)
  subkey ← require_str "subkey" leaf
  require_path_safe subkey
  fs ← leaf_files leaf
  require (leb (files + Json.length fs) max_files_total) schema_error
  check_files fs
  ok (files + Json.length fs)
check_leaf files _ = err schema_error

unfoldable pub check_leaves : ℕ → Items → Result Error ℕ
check_leaves files nil = ok files
check_leaves files (cons leaf rest) = do counted ← check_leaf files leaf; check_leaves counted rest

abbrev pub check_list : Option Json → Result Error (Unit {0})
check_list (some (arr leaves)) = do
  require (leb (Json.length leaves) max_leaves) schema_error
  files ← check_leaves 0 leaves
  ok tt
check_list _ = err schema_error

unfoldable pub validate_inventory : Fields → Result Error (Unit {0})
validate_inventory inv = check_list (Json.get_field "leaves" inv)
