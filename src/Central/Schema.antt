-- ===== src/Central/Schema.antt =====
-- backend/central/schema.py: the checks on a heartbeat's payload. The messages are left out; a
-- failed check is told apart from the exceptions that the code does not turn into a SchemaError.
use snapshot_drive.Prelude.{
  ℕ, zero, suc, ◌*◌, String, Bool, true, false, ◌&&◌, ◌||◌, Option, none, some, List, [], ◌∷◌, leb,
  ◌==◌, if◌then◌else◌, length, str_eq, Result, require, ok, err, ◌>>=◌, ◌>>◌,
}
pub mod Inventory
pub mod Heartbeat
pub mod Safe
pub mod Names
pub mod Paths
use Prim.Native.Char.{Char, code}
use snapshot_drive.Prelude.Json.{Json, Fields, null, boolean, num, str, arr, obj}
use snapshot_drive.Prelude.Json
use snapshot_drive.Prelude.Text.{size, is_empty}

-- schema_error is a SchemaError; the others leave the validation as they are.
pub data Error : Type 0 where
  schema_error key_error type_error : Error

abbrev pub max_payload_bytes : ℕ
max_payload_bytes = 64 * 1024

unfoldable pub check_size : List ℕ → Result Error (Unit {0})
check_size raw = require (leb (length raw) max_payload_bytes) schema_error

abbrev pub among : String → List String → Bool
among s [] = false
among s (x ∷ xs) = str_eq s x || among s xs

abbrev pub op_values : List String
op_values = "archive" ∷ "create" ∷ "reconcile" ∷ "prune" ∷ "delete" ∷ "db_dump" ∷ []

abbrev pub status_values : List String
status_values = "ok" ∷ "fail" ∷ "running" ∷ []

abbrev pub category_values : List String
category_values = "os" ∷ "db" ∷ []

-- [a-zA-Z0-9._-]
unfoldable pub is_safe_char : Char → Bool
is_safe_char c =
    (leb b'a' (code c) && leb (code c) b'z')
    || (leb b'A' (code c) && leb (code c) b'Z')
    || (leb b'0' (code c) && leb (code c) b'9')
    || code c == b'.'
    || code c == b'_'
    || code c == b'-'

-- The rest of the text matches [a-zA-Z0-9._-]{0,room}$; in a Python pattern `$` also matches
-- before a line feed that ends the text.
unfoldable pub matches_tail : ℕ → String → Bool
unfolding is_safe_char
matches_tail room String.[] = true
matches_tail zero (String.◌∷◌ c s) = code c == 10 && is_empty s
matches_tail (suc room) (String.◌∷◌ c s) =
    let rest = matches_tail room s in if is_safe_char c then rest else code c == 10 && is_empty s

-- _PATH_SAFE.match(value), for ^[a-zA-Z0-9._-]{1,64}$
unfoldable pub path_safe : String → Bool
unfolding matches_tail is_safe_char
path_safe String.[] = false
path_safe (String.◌∷◌ c s) = is_safe_char c && matches_tail 63 s

unfoldable pub require_path_safe : String → Result Error (Unit {0})
require_path_safe value = require (path_safe value) schema_error

-- _require(d, key, (str,)) and _require(d, key, (dict,))
unfoldable pub require_str : String → Fields → Result Error String
require_str key d = elim (Json.get_field key d) [ some (str s) ↦ ok s | _ ↦ err schema_error ]

unfoldable pub require_dict : String → Fields → Result Error Fields
require_dict key d = elim (Json.get_field key d) [
  | some (obj inner) ↦ ok inner
  | _ ↦ err schema_error
]

-- `if key in d and d[key] is not None: _require_path_safe(d[key])`; a pattern is matched against a
-- str only
unfoldable pub optional_path_safe : String → Fields → Result Error (Unit {0})
unfolding require_path_safe
optional_path_safe key d = elim (Json.get_field key d) [
  | none ↦ ok tt
  | some null ↦ ok tt
  | some (str s) ↦ require_path_safe s
  | some _ ↦ err type_error
]

-- `value not in values`: a missing key was a KeyError, a list or a dict cannot be hashed
abbrev pub among_value : List String → Option Json → Result Error (Unit {0})
among_value values none = err key_error
among_value values (some (str s)) = require (among s values) schema_error
among_value values (some (arr xs)) = err type_error
among_value values (some (obj fs)) = err type_error
among_value values (some _) = err schema_error

-- `d[key] not in values`
unfoldable pub require_among : String → List String → Fields → Result Error (Unit {0})
require_among key values d = among_value values (Json.get_field key d)

-- isinstance(v, int) and v >= 0; a bool is an int
abbrev pub is_count : Json → Bool
is_count (num n) = true
is_count (boolean b) = true
is_count _ = false

-- `if key in d: check d[key]`
unfoldable pub optional_count : String → Fields → Result Error (Unit {0})
optional_count key d = elim (Json.get_field key d) [
  | none ↦ ok tt
  | some v ↦ require (is_count v) schema_error
]

-- `if key in d and d[key] is not None: check d[key]`
unfoldable pub nullable_count : String → Fields → Result Error (Unit {0})
nullable_count key d = elim (Json.get_field key d) [
  | none ↦ ok tt
  | some null ↦ ok tt
  | some v ↦ require (is_count v) schema_error
]

-- `text_of` is Python's str() of a value that is no text.
unfoldable pub check_error_text : (Json → String) → Fields → Result Error (Unit {0})
check_error_text text_of op = elim (Json.get_field "error" op) [
  | none ↦ ok tt
  | some null ↦ ok tt
  | some (str s) ↦ require (leb (size s) 500) schema_error
  | some v ↦ require (leb (size (text_of v)) 500) schema_error
]

unfoldable pub check_client : Fields → Result Error (Unit {0})
unfolding require_dict require_str require_path_safe optional_path_safe
check_client p = do
  client ← require_dict "client" p
  proyecto ← require_str "proyecto" client
  require_path_safe proyecto
  optional_path_safe "entorno" client
  optional_path_safe "pais" client

unfoldable pub check_target : Fields → Result Error (Unit {0})
unfolding require_dict require_str require_path_safe
check_target p = do
  target ← require_dict "target" p
  category ← require_str "category" target
  require (among category category_values) schema_error
  subkey ← require_str "subkey" target
  require_path_safe subkey
  label ← require_str "label" target
  require_path_safe label

unfoldable pub check_operation : (Json → String) → Fields → Result Error (Unit {0})
unfolding require_dict require_among nullable_count check_error_text
check_operation text_of p = do
  op ← require_dict "operation" p
  require_among "op" op_values op
  require_among "status" status_values op
  nullable_count "duration_s" op
  check_error_text text_of op

-- An optional block: absent or null, or a dict that passes the check.
abbrev pub optional_dict :
    (Fields → Result Error (Unit {0})) → Option Json → Result Error (Unit {0})
optional_dict check none = ok tt
optional_dict check (some null) = ok tt
optional_dict check (some (obj inner)) = check inner
optional_dict check (some _) = err schema_error

abbrev pub check_totals : Fields → Result Error (Unit {0})
check_totals totals = do optional_count "size_bytes" totals; optional_count "count_files" totals

-- What the validation takes from outside: whether uuid.UUID accepts a text, and str() of a value.
pub record Outside : Type 0 where
  pub is_uuid : String → Bool
  pub text_of : Json → String
