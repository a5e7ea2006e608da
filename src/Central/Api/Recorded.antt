-- ===== src/Central/Api/Recorded.antt =====
-- The sender's queue and the endpoint together.
use snapshot_drive.Prelude.{
  ℕ, String, ◌≡◌, refl, sym, ap, ◌∙◌, subst, true, false, some, List, arith, is_some, ok, eq_refl,
  ◌==◌, ok_injective,
}
use snapshot_drive.Prelude.Table.{find}
use snapshot_drive.Prelude.Json.{Json, Fields, obj, str}
use snapshot_drive.Prelude.Json
use snapshot_drive.Central.Database.{Database}
use snapshot_drive.Central.Queue.{Item, by_event}
use snapshot_drive.Central.Report.{text_at}
use snapshot_drive.Central.Report.Reading.{read_report-event_id}
use snapshot_drive.Central.Models.{event_with}
use snapshot_drive.Central.Models.Applied.{apply_heartbeat_lem}
use snapshot_drive.Central.Schema.Safe.{validate_heartbeat_sound}
use snapshot_drive.Central.Sender.{settle}
use snapshot_drive.Central.Sender.Delivery.{is_some-settle}
use snapshot_drive.Central.Api.{
  World, Request, Reply, accepted, raised, too_large, missing_bearer, invalid_token, not_json,
  bad_schema, client_gone, mismatch, status, heartbeat,
}
use snapshot_drive.Central.Api.Gate.{is_accepted, heartbeat_lem, IsAccepted}

status-accepted : (r : Reply) → (status r == 200) ≡ is_accepted r
unfolding status is_accepted
status-accepted (accepted e i) = ground arith
status-accepted raised = ground arith
status-accepted too_large = ground arith
status-accepted missing_bearer = ground arith
status-accepted invalid_token = ground arith
status-accepted not_json = ground arith
status-accepted bad_schema = ground arith
status-accepted client_gone = ground arith
status-accepted mismatch = ground arith

obj_injective : {p q : Fields} → ◌≡◌ {A = Json} (obj p) (obj q) → p ≡ q
obj_injective h = cc

text_at_str :
    (key e : String) (p : Fields) → Json.get_field key p ≡ some (str e) → text_at key p ≡ ok e
unfolding text_at
text_at_str key e p h = rw (text_at, h) refl

-- What is applied is recorded under the event of the payload.
IsAccepted-recorded :
    (w : World) (req : Request) (db db' : Database) (fields : Fields) (e : String)
    → req.body ≡ some (obj fields)
    → Json.get_field "event_id" fields ≡ some (str e)
    → IsAccepted w req db db'
    → is_some (find (event_with e) db'.events) ≡ true
IsAccepted-recorded w req db db' fields e sent named (plaintext, b, tokens, info, v, authorised) =
    let (body, given, payload, valid, done) = authorised in
    let (c, there, p, res, applied) = done in
    let (shape, _, _, _, _) = validate_heartbeat_sound w.schema body payload valid in
    let same : payload ≡ fields = cc in
    let (r, read, logged, _, _, _, _, _, _, _, _, _) =
      apply_heartbeat_lem w.models w.target_row w.event_row w.later info.id info.client_id
        (some req.src_ip) payload (record db { tokens = tokens }) db' res applied in
    let own : r.event_id ≡ e = ok_injective (
      sym (read_report-event_id payload r read)
      ∙ ap (text_at "event_id") same
      ∙ text_at_str "event_id" e fields named) in
    subst (λ i. is_some (find (event_with i) db'.events) ≡ true) own logged

-- The sender drops a waiting event from its queue on a reply of the endpoint to a request that
-- carries it, a JSON object with its event_id, only if the event is in the log of the central
-- server after the request, whatever the request's other parts, the tokens and the tables are.
pub settle_recorded :
    (w : World) (req : Request) (db : Database) (fields : Fields) (e text : String) (now : ℕ)
    (rows : List Item)
    → req.body ≡ some (obj fields)
    → Json.get_field "event_id" fields ≡ some (str e)
    → is_some (find (by_event e) rows) ≡ true
    → let (db', r) = heartbeat w req db in
      is_some (find (by_event e) (settle now e (status r) text rows)) ≡ false
      → is_some (find (event_with e) db'.events) ≡ true
settle_recorded w req db fields e text now rows sent named waiting gone =
    IsAccepted-recorded w req db _ fields e sent named (
      (heartbeat_lem w req db).0 (
        grind (
          arith,
          is_some-settle now e (status (heartbeat w req db).1) text e rows,
          status-accepted (heartbeat w req db).1,
          eq_refl,
        )))
