-- ===== src/Services/ArchiveConfig/Live.antt =====
-- backend/services/archive_config.py: the setters that change the settings of the running
-- process together with the file, and the link to the central server.
use snapshot_drive.Prelude.{
  ℕ, Bool, not, ◌&&◌, ◌||◌, none, some, [], ◌∷◌, ◌++◌, ◌==◌, leb, length, if◌then◌else◌, Result, ok,
  require, ◌>>=◌, ◌>>◌,
}
use snapshot_drive.Prelude.Chars.{
  Chars, chars, same, strip, is_digit, is_upper, or_else, value_from,
}
use snapshot_drive.Prelude.Chars.Scan.{every}
use snapshot_drive.Services.ArchiveConfig.{
  answered, Ending, Updates, Form, Memory, World, write_back, setting, number_update,
}
use snapshot_drive.Services.ArchiveConfig.Links.{
  AlertsConfig, get_alerts_config, is_true, email_update, webhook_update, rstrip_slash,
  lstrip_slash, is_url,
}
use snapshot_drive.Services.ArchiveConfig.Values.{
  Raised, bad_path, bad_url, bad_token, truthy, text_of, is_lower,
}
use snapshot_drive.Services.ConfFile.{lookup}

-- if updates: write, and copy into the memory
unfoldable pub apply_updates : (Updates → Memory → Memory) → Updates → World → Result Raised World
apply_updates remember [] w = ok w
apply_updates remember (u ∷ ups) w = do
  w' ← write_back (u ∷ ups) w
  ok (record w' { memory = remember (u ∷ ups) w'.memory })

-- the value of an update, or the setting that is there
abbrev pub updated {ℓ} : {A : Type ℓ} → Chars → (Chars → A) → Updates → A → A
updated key read ups old = elim (lookup key ups) [ none ↦ old | some v ↦ read v ]

unfoldable pub alerts_updates : Form → Result Raised Updates
alerts_updates form = do
  hours ←
      number_update (chars "ALERTS_NO_HEARTBEAT_HOURS") 1 720
        (lookup (chars "no_heartbeat_hours") form)
  pct ← number_update (chars "ALERTS_SHRINK_PCT") 1 99 (lookup (chars "shrink_pct") form)
  email ← email_update form
  webhook ← webhook_update form
  ok (hours ++ (pct ++ (email ++ webhook)))

unfoldable pub remember_alerts : Updates → Memory → Memory
remember_alerts ups m = record m {
  no_heartbeat_hours =
      updated (chars "ALERTS_NO_HEARTBEAT_HOURS") (value_from 0) ups m.no_heartbeat_hours;
  shrink_pct = updated (chars "ALERTS_SHRINK_PCT") (value_from 0) ups m.shrink_pct;
  alerts_email = updated (chars "ALERTS_EMAIL") (λ v. v) ups m.alerts_email;
  alerts_webhook = updated (chars "ALERTS_WEBHOOK") (λ v. v) ups m.alerts_webhook;
}

-- what `set_alerts_config` does up to its answer
unfoldable pub store_alerts : Form → World → Result Raised World
unfolding alerts_updates apply_updates remember_alerts
store_alerts form w = do ups ← alerts_updates form; apply_updates remember_alerts ups w

unfoldable pub set_alerts_config : Form → World → Ending AlertsConfig
unfolding store_alerts get_alerts_config
set_alerts_config form w = answered get_alerts_config w (store_alerts form w)

pub record CentralConfig : Type 0 where
  pub audit_remote_path : Chars
  pub audit_viewer_enabled : Bool
  pub rclone_remote : Chars

abbrev pub strip_path : Chars → Chars
strip_path s = rstrip_slash (lstrip_slash (strip s))

unfoldable pub get_central_config : World → CentralConfig
unfolding setting
get_central_config w = record {
  audit_remote_path = strip_path (setting (chars "AUDIT_REMOTE_PATH") [] w);
  audit_viewer_enabled =
      same (or_else (setting (chars "SNAPSHOT_AUDIT_VIEWER") [] w) (chars "0")) (chars "1");
  rclone_remote = setting (chars "RCLONE_REMOTE") (chars "gdrive") w;
}

-- `^[A-Za-z0-9 _./\-]{1,256}$`
unfoldable pub is_remote_path : Chars → Bool
is_remote_path s =
    leb 1 (length s)
    && leb (length s) 256
    && every
        (λ c.
          is_upper c
          || is_lower c
          || is_digit c
          || c == b' '
          || c == b'_'
          || c == b'.'
          || c == b'/'
          || c == b'-')
        s

unfoldable pub path_update : Form → Result Raised Updates
unfolding is_remote_path
path_update form = elim (lookup (chars "audit_remote_path") form) [
  | none ↦ ok []
  | some value ↦ do
    raw ← text_of (some value)
    require (same (strip_path raw) [] || is_remote_path (strip_path raw)) bad_path
    ok ((chars "AUDIT_REMOTE_PATH", strip_path raw) ∷ [])
]

unfoldable pub viewer_update : Form → Updates
viewer_update form = elim (lookup (chars "audit_viewer_enabled") form) [
  | none ↦ []
  | some value ↦ (chars "SNAPSHOT_AUDIT_VIEWER", if truthy value then chars "1" else chars "0") ∷ []
]

unfoldable pub remember_central : Updates → Memory → Memory
remember_central ups m = record m {
  audit_remote_path = updated (chars "AUDIT_REMOTE_PATH") (λ v. v) ups m.audit_remote_path;
  audit_enabled =
      updated (chars "SNAPSHOT_AUDIT_VIEWER") (λ v. same v (chars "1")) ups m.audit_enabled;
}

unfoldable pub set_central_config : Form → World → Result Raised World
unfolding path_update viewer_update apply_updates remember_central
set_central_config form w = do
  path ← path_update form
  apply_updates remember_central (path ++ viewer_update form) w

pub record CentralLink : Type 0 where
  pub central_url : Chars
  pub token_set : Bool
  pub configured : Bool

unfoldable pub get_client_central_link : World → CentralLink
unfolding setting
get_client_central_link w =
    let url = strip (setting (chars "CENTRAL_URL") [] w) in
    let tok = strip (setting (chars "CENTRAL_TOKEN") [] w) in
    record {
      central_url = url;
      token_set = not (same tok []);
      configured = not (same url []) && not (same tok []);
    }

abbrev in_url : ℕ → Bool
in_url c =
    is_upper c
    || is_lower c
    || is_digit c
    || c == b'.'
    || c == b'_'
    || c == b':'
    || c == b'-'
    || c == b'/'

-- `^[A-Za-z0-9_\-]{16,256}$`
unfoldable pub is_token : Chars → Bool
is_token s =
    leb 16 (length s)
    && leb (length s) 256
    && every (λ c. is_upper c || is_lower c || is_digit c || c == b'_' || c == b'-') s

-- a text of the link: nothing if it does not come, checked if it has content, and emptied if it
-- comes empty and the form asks for it
unfoldable pub link_update :
    Chars → Chars → Chars → (Chars → Chars) → (Chars → Bool) → Raised → Form → Result Raised Updates
link_update key name clear clean valid raised form = elim (lookup name form) [
  | none ↦ ok []
  | some value ↦ do
    raw ← text_of (some value)
    let v = clean (strip raw)
    if same v []
        then ok (if is_true clear form then (key, []) ∷ [] else [])
        else require (valid v) raised >> ok ((key, v) ∷ [])
]

unfoldable pub link_updates : Form → Result Raised Updates
unfolding link_update is_token
link_updates form = do
  url ←
      link_update (chars "CENTRAL_URL") (chars "central_url") (chars "clear_url") rstrip_slash
        (is_url in_url) bad_url form
  tok ←
      link_update (chars "CENTRAL_TOKEN") (chars "central_token") (chars "clear_token") (λ v. v)
        is_token bad_token form
  ok (url ++ tok)

unfoldable pub remember_link : Updates → Memory → Memory
remember_link ups m = record m {
  central_url = updated (chars "CENTRAL_URL") rstrip_slash ups m.central_url;
  central_token = updated (chars "CENTRAL_TOKEN") (λ v. v) ups m.central_token;
}

unfoldable pub set_client_central_link : Form → World → Result Raised World
unfolding link_updates apply_updates remember_link
set_client_central_link form w = do ups ← link_updates form; apply_updates remember_link ups w
