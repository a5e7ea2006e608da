-- ===== src/Central/Tests.antt =====
-- The data that the tests of backend/central share: a client, its token and a heartbeat.
use snapshot_drive.Prelude.{
  ℕ, ◌+◌, ◌*◌, ◌/◌, true, false, String, none, some, [], ◌∷◌, str_eq, if◌then◌else◌,
}
use snapshot_drive.Prelude.Json.{Fields, obj, str, num, field, end}
use snapshot_drive.Central.Rows.{Client, Token}
use snapshot_drive.Central.Tokens.{Hasher, matches, mismatch}
use snapshot_drive.Central.Schema
use snapshot_drive.Central.Reaction
use snapshot_drive.Central.Database.{Database}
use snapshot_drive.Central.Api
pub mod Sending
pub mod Reports
pub mod Checks
pub mod Alarms

-- a hasher whose hash of a text is the text
abbrev pub hasher : Hasher
hasher = record { hash = λ s. s; check = λ h p. if str_eq h p then matches else mismatch }

abbrev pub secret : String
secret = "0123456789abcdef"

abbrev pub token : Token
token = record {
  id = 3;
  token_hash = secret;
  client_id = 5;
  label = "prod";
  scope = "heartbeat";
  created_at = 10;
  expires_at = none;
  last_used_at = none;
  revoked_at = none;
}

abbrev pub acme : Client
acme = record {
  id = 5;
  proyecto = "acme";
  organizacion = none;
  contacto = none;
  retencion_meses = none;
  notas = none;
  created_at = 1;
  updated_at = 1;
}

abbrev pub tables : Database
tables = record { clients = acme ∷ []; targets = []; tokens = token ∷ []; events = []; alerts = [] }

-- A heartbeat that reports a total size.
abbrev pub payload : ℕ → Fields
payload total = field "event_id" (str "e1") (
    field "ts" (str "2026-01-01") (
      field "client" (obj (field "proyecto" (str "acme") end)) (
        field "target"
          (obj (
            field "category" (str "os")
              (field "subkey" (str "linux") (field "label" (str "srv1") end))))
          (field "operation" (obj (field "op" (str "archive") (field "status" (str "ok") end)))
            (field "totals" (obj (field "size_bytes" (num total) end)) end)))))

-- Nothing is sent; the rounding is to the tenth below.
abbrev pub models : Reaction.Outside
models = record {
  channels = record {
    smtp_host = "";
    alerts_email = "";
    alerts_webhook = "";
    smtp_sends = λ a. false;
    webhook_status = λ b. none;
  };
  rounded = λ d prev. (1000 * d) / prev;
  shrink_pct = 20;
  alert_id = λ n. 900 + n;
  clock = λ n. 1000 + n;
}

abbrev pub world : Api.World
world = record {
  hasher = hasher;
  schema = record { is_uuid = λ s. true; text_of = λ v. "" };
  models = models;
  now = 500;
  later = 501;
  target_row = 11;
  event_row = 21;
}

abbrev pub request : Api.Request
request = record {
  raw = [];
  authorization = "Bearer 0123456789abcdef";
  body = some (obj (payload 1000));
  src_ip = "10.0.0.1";
}
