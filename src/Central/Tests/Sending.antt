-- ===== src/Central/Tests/Sending.antt =====
-- The theorems about the queue, the sender and the endpoint at concrete inputs.
use snapshot_drive.Prelude.{
  Bool, ◌++◌, ◌+◌, ◌-◌, ◌*◌, ◌≡◌, refl, true, not, ◌&&◌, some, List, [], ◌∷◌, is_some, ok, All, min,
  length,
}
use snapshot_drive.Prelude.Table.{find, count}
use snapshot_drive.Prelude.Sort.{IsSorted}
use snapshot_drive.Prelude.Json.{Json, obj, str, field, end}
use snapshot_drive.Central.Tests.{payload, tables, world, request}
use snapshot_drive.Central.Models.{event_with}
use snapshot_drive.Central.Queue.{Item, fresh_item, by_event, enqueue, fetch_due, is_due}
use snapshot_drive.Central.Queue.Due.{fetch_due_lem, earlier}
use snapshot_drive.Central.Queue.Retry.{fail_all, fail_all_lem, state_after}
use snapshot_drive.Central.Queue.Invariant.{enqueue_idem}
use snapshot_drive.Central.Sender.{World, reply, drain, enabled, settle}
use snapshot_drive.Central.Sender.Delivery.{accepted, is_some-drain}
use snapshot_drive.Central.Api.{status, heartbeat}
use snapshot_drive.Central.Api.Gate.{IsAccepted, heartbeat_lem}
use snapshot_drive.Central.Api.Recorded.{settle_recorded}

abbrev item : Item
item = fresh_item 1 100 101 "e1" (obj (payload 1000))

abbrev old_item : Item
old_item = record item { id = 2; event_id = "e2"; next_retry_ts = 50; attempts = 18 }

abbrev queue : List Item
queue = item ∷ old_item ∷ []

-- a server that accepts the second request only
abbrev sender : World
sender = record {
  central_url = "https://central";
  central_token = "0123456789abcdef";
  post = λ n p. reply (500 - 300 * n) "";
  clock = λ n. 300 + n;
}

settle_recorded_example :
    is_some (find (event_with "e1") (heartbeat world request tables).0.events) ≡ true
unfolding snapshot_drive.Prelude.Json.get_field find settle status heartbeat
    snapshot_drive.Central.Schema.check_size snapshot_drive.Prelude.Text.prefix
    snapshot_drive.Central.Tokens.verify snapshot_drive.Prelude.Text.strip
    snapshot_drive.Prelude.Text.suffix snapshot_drive.Prelude.Text.size
    snapshot_drive.Prelude.Table.select snapshot_drive.Central.Schema.Heartbeat.validate_heartbeat
    snapshot_drive.Central.Schema.Heartbeat.validate_fields snapshot_drive.Central.Schema.path_safe
    snapshot_drive.Central.Schema.optional_count snapshot_drive.Central.Clients.get_client
    snapshot_drive.Central.Report.dict_at snapshot_drive.Central.Report.text_at
    snapshot_drive.Central.Models.apply_heartbeat snapshot_drive.Central.Report.read_report
    snapshot_drive.Prelude.Json.or_empty snapshot_drive.Central.Queue.mark_done
    snapshot_drive.Prelude.Table.delete
settle_recorded_example =
    settle_recorded world request tables (payload 1000) "e1" "" 300 queue refl refl refl refl

heartbeat_lem_example : IsAccepted world request tables (heartbeat world request tables).0
unfolding snapshot_drive.Central.Api.Gate.is_accepted heartbeat
    snapshot_drive.Central.Schema.check_size snapshot_drive.Prelude.Text.prefix
    snapshot_drive.Central.Tokens.verify snapshot_drive.Prelude.Text.strip
    snapshot_drive.Prelude.Text.suffix snapshot_drive.Prelude.Text.size
    snapshot_drive.Prelude.Table.select snapshot_drive.Central.Schema.Heartbeat.validate_heartbeat
    snapshot_drive.Central.Schema.Heartbeat.validate_fields snapshot_drive.Prelude.Json.get_field
    snapshot_drive.Central.Schema.path_safe snapshot_drive.Central.Schema.optional_count
    snapshot_drive.Central.Clients.get_client find snapshot_drive.Central.Report.dict_at
    snapshot_drive.Central.Report.text_at snapshot_drive.Central.Models.apply_heartbeat
    snapshot_drive.Central.Report.read_report snapshot_drive.Prelude.Json.or_empty
heartbeat_lem_example = (heartbeat_lem world request tables).0 refl

is_some-drain_example : is_some (find (by_event "e1") (drain sender 200 10 queue).0) ≡ (
    is_some (find (by_event "e1") queue)
    && not (enabled sender && accepted sender 0 "e1" (fetch_due 200 10 queue)))
is_some-drain_example = is_some-drain sender 200 10 queue "e1"

fail_all_lem_example :
    (r : Item) × (find (by_event "e2") (fail_all "e2" ((60, "x") ∷ (70, "y") ∷ []) queue) ≡ some r)
    × (r.attempts ≡ 18 + 2)
    × (r.state ≡ state_after r.attempts)
unfolding find
fail_all_lem_example = fail_all_lem "e2" ((60, "x") ∷ (70, "y") ∷ []) queue {r = old_item} refl refl

fetch_due_lem_example :
    All (λ r. is_due 200 r ≡ true) (fetch_due 200 1 queue)
    × IsSorted earlier (fetch_due 200 1 queue)
    × (length (fetch_due 200 1 queue) ≡ min 1 (count (is_due 200) queue))
    × (left : List Item) × IsSorted earlier (fetch_due 200 1 queue ++ left)
    × ((p : Item → Bool)
        → count p (fetch_due 200 1 queue ++ left) ≡ count (λ r. is_due 200 r && p r) queue)
fetch_due_lem_example = fetch_due_lem 200 1 queue

enqueue_idem_example : enqueue 3 200 201 (obj (field "event_id" (str "e1") end)) queue ≡ ok queue
unfolding snapshot_drive.Central.Queue.event_key snapshot_drive.Prelude.Json.get enqueue
    snapshot_drive.Central.Report.bind_text snapshot_drive.Central.Queue.insert_new find
enqueue_idem_example =
    enqueue_idem 9 3 150 151 200 201 (obj (payload 1000)) (obj (field "event_id" (str "e1") end))
      queue refl refl
