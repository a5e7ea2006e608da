-- ===== src/Services/ArchiveConfig/Values.antt =====
-- backend/services/archive_config.py: the checks of the values that a form sends.
use snapshot_drive.Prelude.{
  ◌++◌, ℕ, Bool, true, false, not, ◌&&◌, ◌||◌, Option, none, some, List, [], ◌∷◌, ◌==◌, leb, length,
  if◌then◌else◌, Result, ok, err, require, ◌>>◌,
}
use snapshot_drive.Prelude.Chars.{
  value_from, is_blank, Chars, chars, same, one_of, strip, is_digit, is_upper,
}
use snapshot_drive.Prelude.Chars.Integers.{ℤ, pos, negsuc, int_of}
use snapshot_drive.Prelude.Chars.Scan.{literal, every}

-- the exceptions: those of the module, by their message, an attribute that a value has not, a
-- text that is no number, a file that cannot be read or written
pub data Raised : Type 0 where
  required invalid too_long mismatch too_short bad_text bad_target duplicate bad_port : Raised
  not_an_integer out_of_range bad_recipient bad_email bad_webhook bad_path bad_url bad_token :
      Raised
  attribute_error value_error os_error : Raised

-- a value of the form: a text, an integer, a truth value or null
pub data Value : Type 0 where
  words : Chars → Value
  whole : ℤ → Value
  flag : Bool → Value
  null : Value

-- bool(value)
unfoldable pub truthy : Value → Bool
truthy (words s) = not (same s [])
truthy (whole (pos n)) = not (n == 0)
truthy (whole (negsuc n)) = true
truthy (flag b) = b
truthy null = false

-- values.get(key, "") or "", of a text method; what is true and no text has no `strip`
unfoldable pub text_of : Option Value → Result Raised Chars
unfolding truthy
text_of none = ok []
text_of (some (words s)) = ok s
text_of (some value) = if truthy value then err attribute_error else ok []

-- int(value), of what is no text or no number of the range
unfoldable pub int_value : Value → Option ℤ
int_value (words s) = int_of s
int_value (whole n) = some n
int_value (flag true) = some (pos 1)
int_value (flag false) = some (pos 0)
int_value null = none

abbrev from_to : ℕ → ℕ → Option ℤ → Result Raised ℕ
from_to low high none = err not_an_integer
from_to low high (some (pos n)) = if leb low n && leb n high then ok n else err out_of_range
from_to low high (some (negsuc n)) = err out_of_range

-- the check of an integer field
unfoldable pub number_field : ℕ → ℕ → Value → Result Raised ℕ
number_field low high value = from_to low high (int_value value)

abbrev pub proyectos : List Chars
proyectos =
    chars "superaccess-uno"
    ∷ chars "superaccess-dos"
    ∷ chars "basculas"
    ∷ chars "proyectos-especiales"
    ∷ chars "orus"
    ∷ []

abbrev pub entornos : List Chars
entornos = chars "cloud" ∷ chars "local" ∷ []

abbrev pub paises : List Chars
paises = chars "colombia" ∷ chars "peru" ∷ chars "costa-rica" ∷ chars "panama" ∷ []

unfoldable pub validate_enum : Chars → List Chars → Result Raised Chars
validate_enum value allowed = do
  let v = strip value
  require (not (same v [])) required
  require (one_of v allowed) invalid
  ok v

abbrev pub is_lower : ℕ → Bool
is_lower c = leb 97 c && leb c 122

-- `[A-Za-z0-9_.\-]`
abbrev pub in_label : ℕ → Bool
in_label c = is_upper c || is_lower c || is_digit c || c == b'_' || c == b'.' || c == b'-'

unfoldable pub validate_nombre : Chars → Result Raised Chars
validate_nombre value = do
  let v = strip value
  require (not (same v [])) required
  require (leb (length v) 64) too_long
  require (every in_label v) invalid
  ok v

-- no double quote, line feed or carriage return
abbrev pub is_plain : Chars → Bool
is_plain v = every (λ c. not (c == b'"') && not (c == 10) && not (c == 13)) v

-- a password that is set
abbrev strong : Chars → Result Raised Chars
strong pw = do
  require (leb 8 (length pw)) too_short
  require (leb (length pw) 256) too_long
  require (is_plain pw) bad_text
  ok pw

-- `_validate_password`; an empty one switches the encryption off
unfoldable pub validate_password : Chars → Chars → Result Raised Chars
validate_password pw confirm =
    require (same pw confirm) mismatch >> (if same pw [] then ok [] else strong pw)

-- s.split(): the words between blanks
unfoldable pub split_words : Chars → List Chars
split_words [] = []
split_words (c ∷ s) =
    let rest = split_words s in
    if is_blank c then rest else elim s [
      | [] ↦ (c ∷ []) ∷ []
      | d ∷ t ↦
          if is_blank d
          then (c ∷ []) ∷ rest
          else elim rest [ [] ↦ (c ∷ []) ∷ [] | w ∷ ws ↦ (c ∷ w) ∷ ws ]
    ]

-- " ".join(words)
unfoldable pub join_words : List Chars → Chars
join_words [] = []
join_words (w ∷ []) = w
join_words (w ∷ x ∷ ws) = w ++ (32 ∷ join_words (x ∷ ws))

-- a word, then one or more characters of a class, to the end
abbrev pub after_word : Chars → (ℕ → Bool) → Chars → Bool
after_word word test s = elim (literal word s) [
  | none ↦ false
  | some r ↦ not (same r []) && every test r
]

-- `^(postgres|mysql|mongo):[A-Za-z0-9._\-]+$`
unfoldable pub is_target : Chars → Bool
is_target t =
    after_word (chars "postgres:") in_label t
    || after_word (chars "mysql:") in_label t
    || after_word (chars "mongo:") in_label t

unfoldable pub check_targets : List Chars → List Chars → Result Raised (Unit {0})
unfolding is_target
check_targets seen [] = ok tt
check_targets seen (t ∷ tokens) = do
  require (is_target t) bad_target
  require (not (one_of t seen)) duplicate
  check_targets (t ∷ seen) tokens

unfoldable pub validate_targets : Chars → Result Raised Chars
unfolding check_targets
validate_targets raw =
    let tokens = split_words (strip raw) in check_targets [] tokens >> ok (join_words tokens)

unfoldable pub validate_simple : ℕ → Chars → Result Raised Chars
validate_simple max_len value = do
  let v = strip value
  require (leb (length v) max_len) too_long
  require (is_plain v) bad_text
  ok v

-- the port, or the default where none is given
unfoldable pub validate_port : Chars → Chars → Result Raised Chars
validate_port default value =
    let v = strip value in
    if same v []
    then ok default
    else require (every is_digit v && leb 1 (value_from 0 v) && leb (value_from 0 v) 65535) bad_port
      >> ok v

-- `^age1[0-9a-z]{10}$`
unfoldable pub is_recipient : Chars → Bool
is_recipient s = elim (literal (chars "age1") s) [
  | none ↦ false
  | some r ↦ leb 10 (length r) && every (λ c. is_digit c || is_lower c) r
]

unfoldable pub check_recipients : List Chars → Result Raised (Unit {0})
unfolding is_recipient
check_recipients [] = ok tt
check_recipients (p ∷ parts) = do require (is_recipient p) bad_recipient; check_recipients parts

unfoldable pub validate_recipients : Chars → Result Raised Chars
unfolding check_recipients
validate_recipients raw =
    let parts = split_words (strip raw) in check_recipients parts >> ok (join_words parts)
