-- ===== src/Central/Api.antt =====
-- backend/central/api.py: the endpoints for the machines. The parsed body is flask's; what the
-- handler does to the inventory tables after the reply is decided is left out.
pub mod Gate
pub mod Recorded
use snapshot_drive.Prelude.{
  ℕ, String, Option, none, some, List, if◌then◌else◌, str_eq, Result, ok, err, ◌>>=◌,
}
use snapshot_drive.Prelude.Json.{Json, null, Fields}
use snapshot_drive.Prelude.Text.{prefix, suffix, strip}
use snapshot_drive.Central.Rows.{Client, Token}
use snapshot_drive.Central.Database.{Database}
use snapshot_drive.Central.Tokens
use snapshot_drive.Central.Tokens.{Hasher, TokenInfo, verify}
use snapshot_drive.Central.Schema
use snapshot_drive.Central.Schema.{check_size}
use snapshot_drive.Central.Schema.Heartbeat.{validate_heartbeat}
use snapshot_drive.Central.Report.{ApplyError, text_at, dict_at}
use snapshot_drive.Central.Reaction
use snapshot_drive.Central.Clients.{get_client}
use snapshot_drive.Central.Models.{apply_heartbeat, HeartbeatResult}

-- `body` is what get_json(silent=True) returns, `none` for no JSON.
pub record Request : Type 0 where
  pub raw : List ℕ
  pub authorization : String
  pub body : Option Json
  pub src_ip : String

-- What the handlers take from outside; `now` and `later` are the clock readings of the check of
-- the token and of the transaction.
pub record World : Type 0 where
  pub hasher : Hasher
  pub schema : Schema.Outside
  pub models : Reaction.Outside
  pub now : ℕ
  pub later : ℕ
  pub target_row : ℕ
  pub event_row : ℕ

-- `raised` is an exception that leaves the handler.
pub data Reply : Type 0 where
  too_large missing_bearer invalid_token not_json bad_schema client_gone mismatch raised : Reply
  accepted : String → ℕ → Reply

unfoldable pub status : Reply → ℕ
status too_large = 413
status missing_bearer = 401
status invalid_token = 401
status not_json = 400
status bad_schema = 400
status client_gone = 410
status mismatch = 409
status raised = 500
status (accepted event_id target_id) = 200

-- auth[7:].strip(), where the header starts with the scheme
unfoldable pub bearer : String → Option String
bearer authorization =
    if str_eq (prefix 7 authorization) "Bearer "
    then some (strip (suffix 7 authorization))
    else none

unfoldable pub applied :
    Result ApplyError (Database × HeartbeatResult) → String → Database → Database × Reply
applied (err _) event_id db = (db, raised)
applied (ok (db', res)) event_id db = (db', accepted event_id res.target_id)

-- payload["client"]["proyecto"]
abbrev pub proyecto_of : Fields → Result ApplyError String
proyecto_of payload = do client ← dict_at "client" payload; text_at "proyecto" client

-- payload["event_id"] of the reply
abbrev pub event_id_of : Fields → String
event_id_of payload = elim (text_at "event_id" payload) [ ok e ↦ e | err _ ↦ "" ]

module _ (w : World) (req : Request) where
  unfoldable pub for_client : TokenInfo → Fields → Client → String → Database → Database × Reply
  unfolding applied
  for_client info payload c proyecto db =
      if str_eq proyecto c.proyecto
      then applied
          (apply_heartbeat w.models w.target_row w.event_row w.later info.id info.client_id
            (some req.src_ip) payload db)
          (event_id_of payload) db
      else (db, mismatch)

  unfoldable pub with_client : TokenInfo → Fields → Option Client → Database → Database × Reply
  unfolding for_client
  with_client info payload none db = (db, client_gone)
  with_client info payload (some c) db = elim (proyecto_of payload) [
    | err _ ↦ (db, raised)
    | ok proyecto ↦ for_client info payload c proyecto db
  ]

  unfoldable pub validated : TokenInfo → Result Schema.Error Fields → Database → Database × Reply
  unfolding with_client
  validated info (err Schema.schema_error) db = (db, bad_schema)
  validated info (err Schema.key_error) db = (db, raised)
  validated info (err Schema.type_error) db = (db, raised)
  validated info (ok payload) db =
      with_client info payload (get_client info.client_id db.clients) db

  unfoldable pub authenticated : TokenInfo → Option Json → Database → Database × Reply
  unfolding validated
  authenticated info none db = (db, not_json)
  authenticated info (some null) db = (db, not_json)
  authenticated info (some body) db = validated info (validate_heartbeat w.schema body) db

  unfoldable pub verified :
      Result Tokens.Error (List Token × Option TokenInfo) → Database → Database × Reply
  unfolding authenticated
  verified (err _) db = (db, raised)
  verified (ok (tokens, none)) db = (record db { tokens = tokens }, invalid_token)
  verified (ok (tokens, some info)) db = authenticated info req.body (record db { tokens = tokens })

  unfoldable pub heartbeat : Database → Database × Reply
  unfolding verified bearer
  heartbeat db = elim (check_size req.raw) [
    | err _ ↦ (db, too_large)
    | ok _ ↦ elim (bearer req.authorization) [
      | none ↦ (db, missing_bearer)
      | some plaintext ↦ verified (verify w.hasher w.now plaintext db.tokens) db
    ]
  ]
