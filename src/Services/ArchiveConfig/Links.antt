-- ===== src/Services/ArchiveConfig/Links.antt =====
-- backend/services/archive_config.py: the settings of database backups, of encryption, of alerts
-- and of the central server. Each setter returns the world that it leaves; the code then answers
-- with the getter of the same name.
use snapshot_drive.Prelude.{
  leb, require, ℕ, Bool, false, not, ◌&&◌, ◌||◌, none, some, [], ◌∷◌, ◌++◌, ◌==◌, length,
  if◌then◌else◌, Result, ok, ◌>>=◌, ◌>>◌,
}
use snapshot_drive.Prelude.Chars.{Chars, chars, same, strip, is_blank}
use snapshot_drive.Prelude.Chars.Integers.{ℤ}
use snapshot_drive.Prelude.Chars.Scan.{every, literal, span}
use snapshot_drive.Services.ArchiveConfig.{
  Updates, Form, World, write_back, setting, int_setting, is_set, field,
}
use snapshot_drive.Services.ArchiveConfig.Values.{
  bad_webhook, bad_email, Raised, truthy, split_words, validate_targets, validate_simple,
  validate_port,
}
use snapshot_drive.Services.ConfFile.{lookup}

pub record DbConfig : Type 0 where
  pub targets : Chars
  pub pg_host : Chars
  pub pg_port : Chars
  pub pg_user : Chars
  pub pg_password_set : Bool
  pub mysql_host : Chars
  pub mysql_port : Chars
  pub mysql_user : Chars
  pub mysql_password_set : Bool
  pub mongo_uri_set : Bool

unfoldable pub get_db_config : World → DbConfig
unfolding setting
get_db_config w = record {
  targets = setting (chars "DB_BACKUP_TARGETS") [] w;
  pg_host = setting (chars "DB_PG_HOST") [] w;
  pg_port = setting (chars "DB_PG_PORT") (chars "5432") w;
  pg_user = setting (chars "DB_PG_USER") [] w;
  pg_password_set = is_set (chars "DB_PG_PASSWORD") w;
  mysql_host = setting (chars "DB_MYSQL_HOST") [] w;
  mysql_port = setting (chars "DB_MYSQL_PORT") (chars "3306") w;
  mysql_user = setting (chars "DB_MYSQL_USER") [] w;
  mysql_password_set = is_set (chars "DB_MYSQL_PASSWORD") w;
  mongo_uri_set = is_set (chars "DB_MONGO_URI") w;
}

-- bool(values.get(key))
abbrev pub is_true : Chars → Form → Bool
is_true key form = elim (lookup key form) [ none ↦ false | some value ↦ truthy value ]

-- a text that is only changed if it comes, and emptied if the form asks for it
unfoldable pub secret_update : Chars → Chars → Chars → ℕ → Form → Result Raised Updates
secret_update key name clear max_len form =
    if is_true name form
    then (do s ← field name form; v ← validate_simple max_len s; ok ((key, v) ∷ []))
    else ok (if is_true clear form then (key, []) ∷ [] else [])

unfoldable pub db_updates : Form → Result Raised Updates
unfolding secret_update
db_updates form = do
  t ← field (chars "targets") form
  targets ← validate_targets t
  ph ← field (chars "pg_host") form
  pg_host ← validate_simple 256 ph
  pp ← field (chars "pg_port") form
  pg_port ← validate_port (chars "5432") pp
  pu ← field (chars "pg_user") form
  pg_user ← validate_simple 256 pu
  mh ← field (chars "mysql_host") form
  mysql_host ← validate_simple 256 mh
  mp ← field (chars "mysql_port") form
  mysql_port ← validate_port (chars "3306") mp
  mu ← field (chars "mysql_user") form
  mysql_user ← validate_simple 256 mu
  pg ←
      secret_update (chars "DB_PG_PASSWORD") (chars "pg_password") (chars "clear_pg_password") 256
        form
  mysql ←
      secret_update (chars "DB_MYSQL_PASSWORD") (chars "mysql_password")
        (chars "clear_mysql_password") 256 form
  mongo ←
      secret_update (chars "DB_MONGO_URI") (chars "mongo_uri") (chars "clear_mongo_uri") 1024 form
  ok (
      (chars "DB_BACKUP_TARGETS", targets)
      ∷ (chars "DB_PG_HOST", pg_host)
      ∷ (chars "DB_PG_PORT", pg_port)
      ∷ (chars "DB_PG_USER", pg_user)
      ∷ (chars "DB_MYSQL_HOST", mysql_host)
      ∷ (chars "DB_MYSQL_PORT", mysql_port)
      ∷ (chars "DB_MYSQL_USER", mysql_user)
      ∷ (pg ++ (mysql ++ mongo)))

unfoldable pub set_db_config : Form → World → Result Raised World
unfolding db_updates write_back
set_db_config form w = do ups ← db_updates form; write_back ups w

pub data Mode : Type 0 where
  age openssl unencrypted : Mode

pub record CryptoConfig : Type 0 where
  pub recipients : Chars
  pub recipients_count : ℕ
  pub openssl_password_set : Bool
  pub active_mode : Mode

unfoldable pub get_crypto_config : World → CryptoConfig
unfolding setting
get_crypto_config w =
    let recipients = strip (setting (chars "ARCHIVE_AGE_RECIPIENTS") [] w) in
    let password = is_set (chars "ARCHIVE_PASSWORD") w in
    record {
      recipients = recipients;
      recipients_count = length (split_words recipients);
      openssl_password_set = password;
      active_mode =
          if not (same recipients []) then age else if password then openssl else unencrypted;
    }

pub record AlertsConfig : Type 0 where
  pub no_heartbeat_hours : ℤ
  pub shrink_pct : ℤ
  pub email : Chars
  pub webhook_set : Bool

unfoldable pub get_alerts_config : World → Result Raised AlertsConfig
unfolding setting int_setting
get_alerts_config w = do
  hours ← int_setting (chars "ALERTS_NO_HEARTBEAT_HOURS") (chars "48") w
  pct ← int_setting (chars "ALERTS_SHRINK_PCT") (chars "20") w
  ok (record {
    no_heartbeat_hours = hours;
    shrink_pct = pct;
    email = setting (chars "ALERTS_EMAIL") [] w;
    webhook_set = is_set (chars "ALERTS_WEBHOOK") w;
  })

-- s.rstrip("/"), s.strip("/")
unfoldable pub rstrip_slash : Chars → Chars
rstrip_slash [] = []
rstrip_slash (c ∷ s) = elim (rstrip_slash s) [
  | [] ↦ if c == b'/' then [] else c ∷ []
  | d ∷ t ↦ c ∷ d ∷ t
]

unfoldable pub lstrip_slash : Chars → Chars
lstrip_slash [] = []
lstrip_slash (c ∷ s) = let rest = lstrip_slash s in if c == b'/' then rest else c ∷ s

-- a dot inside, with at least one character on each side
unfoldable pub has_inner_dot : Chars → Bool
has_inner_dot [] = false
has_inner_dot (a ∷ []) = false
has_inner_dot (a ∷ b ∷ []) = false
has_inner_dot (a ∷ b ∷ c ∷ s) = b == b'.' || has_inner_dot (b ∷ c ∷ s)

-- `^[^\s@]+@[^\s@]+\.[^\s@]+$`
unfoldable pub is_email : Chars → Bool
unfolding has_inner_dot
is_email s =
    let (name, rest) = span (λ c. not (is_blank c) && not (c == b'@')) s in
    not (same name []) && elim rest [
      | [] ↦ false
      | at ∷ host ↦
          at == b'@' && every (λ c. not (is_blank c) && not (c == b'@')) host && has_inner_dot host
    ]

-- `^https?://`, and one or more characters of a class
unfoldable pub is_url : (ℕ → Bool) → Chars → Bool
is_url test s = elim (literal (chars "https://") s) [
  | some r ↦ not (same r []) && every test r
  | none ↦ elim (literal (chars "http://") s) [
    | some r ↦ not (same r []) && every test r
    | none ↦ false
  ]
]

-- `[^\s"']`
abbrev in_webhook : ℕ → Bool
in_webhook c = not (is_blank c) && not (c == b'"') && not (c == b'\'')

unfoldable pub email_update : Form → Result Raised Updates
unfolding is_email
email_update form = do
  raw ← field (chars "email") form
  let email = strip raw
  if same email []
      then ok (if is_true (chars "clear_email") form then (chars "ALERTS_EMAIL", []) ∷ [] else [])
      else require (is_email email && leb (length email) 256) bad_email
        >> ok ((chars "ALERTS_EMAIL", email) ∷ [])

unfoldable pub webhook_update : Form → Result Raised Updates
unfolding is_url
webhook_update form =
    if is_true (chars "webhook") form
    then (do
      raw ← field (chars "webhook") form
      let url = strip raw
      require (is_url in_webhook url && leb (length url) 1024) bad_webhook
      ok ((chars "ALERTS_WEBHOOK", url) ∷ []))
    else ok (if is_true (chars "clear_webhook") form then (chars "ALERTS_WEBHOOK", []) ∷ [] else [])
