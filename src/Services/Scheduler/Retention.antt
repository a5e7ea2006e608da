-- ===== src/Services/Scheduler/Retention.antt =====
-- backend/services/scheduler.py: the numbers of snapshots to keep, in snapshot.conf. The file, and
-- whether it can be written, are arguments.
pub mod RoundTrip
pub mod Accepted
use snapshot_drive.Prelude.{
  ℕ, Bool, true, false, Option, none, some, List, [], ◌∷◌, ◌++◌, leb, if◌then◌else◌, Result, ok,
  err, require,
}
use snapshot_drive.Prelude.Chars.{Chars, chars, lower, strip, lstrip, split_lines, decimal}
use snapshot_drive.Prelude.Chars.Integers.{ℤ, pos, negsuc}
use snapshot_drive.Prelude.Chars.Scan.{number, literal, maybe, comment_or_end}
use snapshot_drive.Prelude.{◌>>=◌, ◌>>◌}
use snapshot_drive.Services.ArchiveConfig.Values.{Value, null, int_value}
use snapshot_drive.Services.ConfFile.{
  File, missing, unreadable, text, lookup, rewrite_lines, closed_text,
}
use snapshot_drive.Services.Scheduler.{Raised, schedule, os_error}
use snapshot_drive.Services.Scheduler.Calendar.{
  no_conf, not_an_integer, retention_out_of_range, no_values,
}

abbrev pub retention_keys : List Chars
retention_keys =
    chars "KEEP_DAILY" ∷ chars "KEEP_WEEKLY" ∷ chars "KEEP_MONTHLY" ∷ chars "KEEP_YEARLY" ∷ []

-- `"?\s*(?:#.*)?$` behind a number
abbrev pub number_end : Option (ℕ × Chars) → Option ℕ
number_end none = none
number_end (some (n, r)) = elim (comment_or_end (lstrip (maybe b'"' r))) [
  | none ↦ none
  | some end ↦ some n
]

-- `=\s*"?(\d+)` and what follows
abbrev pub after_equals_sign : Option Chars → Option ℕ
after_equals_sign none = none
after_equals_sign (some r) = number_end (number (maybe b'"' (lstrip r)))

abbrev pub after_key : Option Chars → Option ℕ
after_key none = none
after_key (some r) = after_equals_sign (literal (chars "=") (lstrip r))

-- rf'^{k}\s*=\s*"?(\d+)"?\s*(?:#.*)?$', on the stripped line
unfoldable pub retention_value : Chars → Chars → Option ℕ
retention_value k line = after_key (literal k (strip line))

abbrev pub or_number : ℕ → Option ℕ → ℕ
or_number found none = found
or_number found (some n) = n

unfoldable pub retention_in : Chars → ℕ → List Chars → ℕ
unfolding retention_value
retention_in k found [] = found
retention_in k found (line ∷ lines) =
    retention_in k (or_number found (retention_value k line)) lines

-- `get_retention()[k.lower()]`
unfoldable pub get_retention : File → Chars → ℕ
unfolding retention_in
get_retention missing k = 0
get_retention unreadable k = 0
get_retention (text s) k = retention_in k 0 (split_lines s)

-- `values.get(k.lower(), values.get(k))`, where null counts as absent
unfoldable pub raw_value : Chars → List (Chars × Value) → Option Value
raw_value k values = elim (lookup (lower k) values) [
  | some null ↦ none
  | some value ↦ some value
  | none ↦ elim (lookup k values) [ some null ↦ none | some value ↦ some value | none ↦ none ]
]

abbrev pub in_retention : Option ℤ → Result Raised ℕ
in_retention none = err (schedule not_an_integer)
in_retention (some (pos n)) = if leb n 9999 then ok n else err (schedule retention_out_of_range)
in_retention (some (negsuc n)) = err (schedule retention_out_of_range)

abbrev pub with_number : Chars → Option Value → List (Chars × ℕ) → Result Raised (List (Chars × ℕ))
with_number k none rest = ok rest
with_number k (some value) rest = do n ← in_retention (int_value value); ok ((k, n) ∷ rest)

-- the checks of the keys, in their order
unfoldable pub new_values : List (Chars × Value) → List Chars → Result Raised (List (Chars × ℕ))
unfolding raw_value
new_values values [] = ok []
new_values values (k ∷ keys) = do
  first ← with_number k (raw_value k values) []
  rest ← new_values values keys
  ok (first ++ rest)

-- f"{k}={v}"
unfoldable pub show_retention : Chars → ℕ → Chars
show_retention k n = k ++ (b'=' ∷ decimal n)

-- the text that `set_retention` replaces the file by
unfoldable pub retention_text : List (Chars × ℕ) → Chars → Chars
retention_text ups old = closed_text (rewrite_lines show_retention ups (split_lines old))

abbrev pub write_retention : Bool → File → List (Chars × ℕ) → Result Raised File
write_retention writable f [] = err (schedule no_values)
write_retention writable missing (u ∷ ups) = err (schedule no_conf)
write_retention writable unreadable (u ∷ ups) = err os_error
write_retention writable (text old) (u ∷ ups) =
    if writable then ok (text (retention_text (u ∷ ups) old)) else err os_error

abbrev pub is_there : File → Bool
is_there missing = false
is_there unreadable = true
is_there (text s) = true

-- the file that `set_retention` leaves; it answers with `get_retention` of it
unfoldable pub set_retention : Bool → List (Chars × Value) → File → Result Raised File
unfolding new_values retention_text
set_retention writable values f = do
  require (is_there f) (schedule no_conf)
  ups ← new_values values retention_keys
  write_retention writable f ups
