-- ===== src/Central/Report.antt =====
-- What apply_heartbeat of backend/central/models.py reads of a payload, and how SQLite takes the
-- values into the columns. The code reads entorno and pais for a new target only; the validation lets
-- only texts and null through there, so that reading them always raises nothing more.
pub mod Reading
use Prim.Native.String
use snapshot_drive.Prelude.{
  ℕ, ◌+◌, ◌^◌, String, true, false, Option, none, some, ltb, if◌then◌else◌, Result, ok, err, ◌>>=◌,
}
use snapshot_drive.Prelude.Json.{Json, null, boolean, num, neg, real, str, arr, obj, Fields}
use snapshot_drive.Prelude.Json
use snapshot_drive.Prelude.Text.{decimal}

-- A missing key, a method of what is no dict, a value that SQLite does not take, and a payload that
-- the validation refuses.
pub data ApplyError : Type 0 where
  key_error attribute_error binding_error not_validated : ApplyError

-- the integers that a column holds are below this bound, and not below its negative
abbrev pub integer_bound : ℕ
integer_bound = 2 ^ 63

-- A value bound to a TEXT column; a number becomes its text.
unfoldable pub bind_text : Option Json → Result ApplyError (Option String)
bind_text none = ok none
bind_text (some null) = ok none
bind_text (some (str s)) = ok (some s)
bind_text (some (real s)) = ok (some s)
bind_text (some (boolean true)) = ok (some "1")
bind_text (some (boolean false)) = ok (some "0")
bind_text (some (num n)) = if ltb n integer_bound then ok (some (decimal n)) else err binding_error
bind_text (some (neg n)) =
    if ltb n integer_bound then ok (some (String.◌++◌ "-" (decimal (n + 1)))) else err binding_error
bind_text (some (arr xs)) = err binding_error
bind_text (some (obj fields)) = err binding_error

-- A size bound to an INTEGER column: the validation lets only counts through.
unfoldable pub bind_count : Option Json → Result ApplyError (Option ℕ)
bind_count none = ok none
bind_count (some null) = ok none
bind_count (some (boolean true)) = ok (some 1)
bind_count (some (boolean false)) = ok (some 0)
bind_count (some (num n)) = if ltb n integer_bound then ok (some n) else err binding_error
bind_count (some _) = err not_validated

-- d[key], for a text that the validation has seen
unfoldable pub text_at : String → Fields → Result ApplyError String
text_at key d = elim (Json.get_field key d) [
  | none ↦ err key_error
  | some (str s) ↦ ok s
  | some _ ↦ err not_validated
]

-- d[key], for a dict that the validation has seen
unfoldable pub dict_at : String → Fields → Result ApplyError Fields
dict_at key d = elim (Json.get_field key d) [
  | none ↦ err key_error
  | some (obj inner) ↦ ok inner
  | some _ ↦ err not_validated
]

pub record Report : Type 0 where
  pub event_id : String
  pub op : String
  pub status : String
  pub category : String
  pub subkey : String
  pub label : String
  pub entorno : Option String
  pub pais : Option String
  pub started_at : Option String
  pub last_size_bytes : Option ℕ
  pub total_size_bytes : Option ℕ
  pub count_files : Option ℕ
  pub oldest_ts : Option String
  pub newest_ts : Option String
  pub snapctl_version : Option String
  pub rclone_version : Option String

unfoldable pub read_report : Fields → Result ApplyError Report
unfolding text_at dict_at bind_text bind_count
read_report payload = do
  event_id ← text_at "event_id" payload
  operation ← dict_at "operation" payload
  op ← text_at "op" operation
  status ← text_at "status" operation
  target ← dict_at "target" payload
  snap ← Json.or_empty attribute_error "snapshot" payload
  totals ← Json.or_empty attribute_error "totals" payload
  host_meta ← Json.or_empty attribute_error "host_meta" payload
  category ← text_at "category" target
  subkey ← text_at "subkey" target
  label ← text_at "label" target
  client ← Json.or_empty attribute_error "client" payload
  entorno ← bind_text (Json.get_field "entorno" client)
  pais ← bind_text (Json.get_field "pais" client)
  started_at ← bind_text (Json.get_field "started_at" operation)
  last_size ← bind_count (Json.get_field "size_bytes" snap)
  total_size ← bind_count (Json.get_field "size_bytes" totals)
  count_files ← bind_count (Json.get_field "count_files" totals)
  oldest_ts ← bind_text (Json.get_field "oldest_ts" totals)
  newest_ts ← bind_text (Json.get_field "newest_ts" totals)
  snapctl_version ← bind_text (Json.get_field "snapctl_version" host_meta)
  rclone_version ← bind_text (Json.get_field "rclone_version" host_meta)
  ok (record {
    event_id = event_id;
    op = op;
    status = status;
    category = category;
    subkey = subkey;
    label = label;
    entorno = entorno;
    pais = pais;
    started_at = started_at;
    last_size_bytes = last_size;
    total_size_bytes = total_size;
    count_files = count_files;
    oldest_ts = oldest_ts;
    newest_ts = newest_ts;
    snapctl_version = snapctl_version;
    rclone_version = rclone_version;
  })
