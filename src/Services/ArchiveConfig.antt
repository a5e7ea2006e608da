-- ===== src/Services/ArchiveConfig.antt =====
-- backend/services/archive_config.py: the settings in snapshot.local.conf, and their copies in
-- the memory of the process. Whether the file can be written, the name of the machine and the
-- form are arguments. An exception before the write leaves the file and the memory as they were; a
-- setter that answers with `get_config` may raise behind the write. A file that is there and can be
-- read is taken to be valid UTF-8.
pub mod Lines
pub mod Values
pub mod Links
pub mod Live
pub mod Taxonomy
pub mod Saved
pub mod Changed
use snapshot_drive.Prelude.{
  ℕ, Bool, not, Option, none, some, List, [], ◌∷◌, if◌then◌else◌, Result, ok, err, ◌>>=◌, ◌>>◌,
}
use snapshot_drive.Prelude.Chars.{Chars, chars, same, or_else, split_lines, decimal}
use snapshot_drive.Prelude.Chars.Integers.{ℤ, int_of}
use snapshot_drive.Services.ArchiveConfig.Lines.{read_conf, show_line}
use snapshot_drive.Services.ArchiveConfig.Values.{
  Raised, value_error, os_error, Value, text_of, number_field, proyectos, entornos, paises,
  validate_enum, validate_nombre, validate_password, validate_recipients,
}
use snapshot_drive.Services.ConfFile.{
  File, missing, unreadable, text, lookup, rewrite_lines, trimmed_text,
}

abbrev pub Updates : Type 0
Updates = List (Chars × Chars)

abbrev pub Form : Type 0
Form = List (Chars × Value)

-- the settings of the process that the module keeps up to date
pub record Memory : Type 0 where
  pub no_heartbeat_hours : ℕ
  pub shrink_pct : ℕ
  pub alerts_email : Chars
  pub alerts_webhook : Chars
  pub audit_remote_path : Chars
  pub audit_enabled : Bool
  pub central_url : Chars
  pub central_token : Chars

pub record World : Type 0 where
  pub conf : File
  pub memory : Memory
  pub writable : Bool

-- the text that `_write_back` replaces the file by
unfoldable pub new_text : Updates → Chars → Chars
new_text ups old = trimmed_text (rewrite_lines show_line ups (split_lines old))

abbrev put_text : Updates → World → Chars → Result Raised World
put_text ups w old =
    if w.writable then ok (record w { conf = text (new_text ups old) }) else err os_error

abbrev write_file : Updates → World → File → Result Raised World
write_file ups w missing = put_text ups w []
write_file ups w unreadable = err os_error
write_file ups w (text old) = put_text ups w old

-- `_write_back`
unfoldable pub write_back : Updates → World → Result Raised World
unfolding new_text
write_back ups w = write_file ups w w.conf

abbrev pub or_default : Chars → Option Chars → Chars
or_default default none = default
or_default default (some v) = v

-- vals.get(key, default)
unfoldable pub setting : Chars → Chars → World → Chars
setting key default w = or_default default (lookup key (read_conf w.conf))

-- int(vals.get(key, default) or default), a text that is no number raises
unfoldable pub int_setting : Chars → Chars → World → Result Raised ℤ
unfolding setting
int_setting key default w = elim (int_of (or_else (setting key default w) default)) [
  | none ↦ err value_error
  | some n ↦ ok n
]

pub record Config : Type 0 where
  pub proyecto : Chars
  pub entorno : Chars
  pub pais : Chars
  pub nombre : Chars
  pub hostname : Chars
  pub keep_months : ℤ
  pub password_set : Bool

abbrev pub is_set : Chars → World → Bool
is_set key w = not (same (setting key [] w) [])

unfoldable pub get_config : Chars → World → Result Raised Config
unfolding setting int_setting
get_config host w = do
  months ← int_setting (chars "ARCHIVE_KEEP_MONTHS") (chars "12") w
  ok (record {
    proyecto = setting (chars "BACKUP_PROYECTO") [] w;
    entorno = setting (chars "BACKUP_ENTORNO") [] w;
    pais = setting (chars "BACKUP_PAIS") [] w;
    nombre = or_else (setting (chars "BACKUP_NOMBRE") [] w) host;
    hostname = host;
    keep_months = months;
    password_set = is_set (chars "ARCHIVE_PASSWORD") w;
  })

-- a text field of the form
abbrev pub field : Chars → Form → Result Raised Chars
field key form = text_of (lookup key form)

-- the updates of an integer field that the form has
abbrev pub number_update : Chars → ℕ → ℕ → Option Value → Result Raised Updates
number_update key low high none = ok []
number_update key low high (some value) = do
  n ← number_field low high value
  ok ((key, decimal n) ∷ [])

unfoldable pub taxonomy_updates : Chars → Form → Result Raised Updates
taxonomy_updates host form = do
  p ← field (chars "proyecto") form
  proyecto ← validate_enum p proyectos
  e ← field (chars "entorno") form
  entorno ← validate_enum e entornos
  c ← field (chars "pais") form
  pais ← validate_enum c paises
  n ← field (chars "nombre") form
  nombre ← validate_nombre (or_else n host)
  months ← number_update (chars "ARCHIVE_KEEP_MONTHS") 1 120 (lookup (chars "keep_months") form)
  ok (
      (chars "BACKUP_PROYECTO", proyecto)
      ∷ (chars "BACKUP_ENTORNO", entorno)
      ∷ (chars "BACKUP_PAIS", pais)
      ∷ (chars "BACKUP_NOMBRE", nombre)
      ∷ months)

-- what `set_taxonomy` does up to its write
unfoldable pub store_taxonomy : Chars → Form → World → Result Raised World
unfolding taxonomy_updates write_back
store_taxonomy host form w = do ups ← taxonomy_updates host form; write_back ups w

-- the answer of a setter or the exception that leaves it, with what it leaves
abbrev pub Ending : Type 0 → Type 0
Ending A = Result Raised A × World

-- a getter behind the write: what is written stays, also where it raises
abbrev pub answered :
    {A : Type 0} → (World → Result Raised A) → World → Result Raised World → Ending A
answered get w (err e) = (err e, w)
answered get w (ok w') = (get w', w')

unfoldable pub set_taxonomy : Chars → Form → World → Ending Config
unfolding store_taxonomy get_config
set_taxonomy host form w = answered (get_config host) w (store_taxonomy host form w)

-- what `set_password` does up to its write
unfoldable pub store_password : Chars → Chars → World → Result Raised World
unfolding write_back
store_password new confirm w = do
  pw ← validate_password new confirm
  write_back ((chars "ARCHIVE_PASSWORD", pw) ∷ []) w

unfoldable pub set_password : Chars → Chars → Chars → World → Ending Config
unfolding store_password get_config
set_password host new confirm w = answered (get_config host) w (store_password new confirm w)

unfoldable pub clear_password : Chars → World → Ending Config
unfolding write_back get_config
clear_password host w =
    answered (get_config host) w (write_back ((chars "ARCHIVE_PASSWORD", []) ∷ []) w)

unfoldable pub set_recipients : Chars → World → Result Raised World
unfolding write_back
set_recipients raw w = do
  recipients ← validate_recipients raw
  write_back ((chars "ARCHIVE_AGE_RECIPIENTS", recipients) ∷ []) w
