-- ===== src/Central/Tests/Reports.antt =====
-- The theorems about what a heartbeat does to the tables, at concrete inputs.
use snapshot_drive.Prelude.{
  ◌++◌, ◌≡◌, refl, true, false, none, some, List, [], ◌∷◌, arith, is_some, ok, err,
}
use snapshot_drive.Prelude.Table.{find, count}
use snapshot_drive.Prelude.Json.{real, num, field, end}
use snapshot_drive.Central.Tests.{payload, tables, models, acme}
use snapshot_drive.Central.Rows.{Event, Target}
use snapshot_drive.Central.Database.{Database}
use snapshot_drive.Central.Report.{Report, read_report}
use snapshot_drive.Central.Models.{
  apply_heartbeat, store_report, HeartbeatResult, event_with, target_of, new_target, subject_of,
}
use snapshot_drive.Central.Clients.{delete_client, integrity_error}
use snapshot_drive.Central.Reaction.{react}
use snapshot_drive.Central.Models.Applied.{
  IsEvent, apply_heartbeat_lem, apply_heartbeat_again, IsRepeat,
}
use snapshot_drive.Central.Models.Upsert.{AreUnique}
use snapshot_drive.Central.Clients.Deletion.{delete_client-apply_heartbeat}
use snapshot_drive.Central.Alerts.Rules.{Finding}
use snapshot_drive.Central.Alerts.Store.{backup_shrink, critical, Alert}

-- what is read of the heartbeat
abbrev report : Report
report = record {
  event_id = "e1";
  op = "archive";
  status = "ok";
  category = "os";
  subkey = "linux";
  label = "srv1";
  entorno = none;
  pais = none;
  started_at = none;
  last_size_bytes = none;
  total_size_bytes = some 1000;
  count_files = none;
  oldest_ts = none;
  newest_ts = none;
  snapctl_version = none;
  rclone_version = none;
}

-- the tables and the result after the first call
abbrev stored : Database × HeartbeatResult
stored = store_report models 11 21 501 3 5 (some "10.0.0.1") (payload 1000) report tables

apply_heartbeat_lem_example :
    (r : Report) × (read_report (payload 1000) ≡ ok r)
    × (is_some (find (event_with r.event_id) stored.0.events) ≡ true)
    × (is_some (find (event_with r.event_id) tables.events) ≡ true
        → (stored.1.event_inserted ≡ false) × (stored.0.events ≡ tables.events))
    × (find (event_with r.event_id) tables.events ≡ none
        → (stored.1.event_inserted ≡ true)
          × (ev : Event) × (stored.0.events ≡ tables.events ++ ev ∷ [])
          × IsEvent 501 3 5 stored.1.target_id (some "10.0.0.1") (payload 1000) r ev)
    × (t : Target) × (find (target_of 5 r) stored.0.targets ≡ some t)
    × (t.id ≡ stored.1.target_id)
    × (t.last_exec_status ≡ r.status)
    × (t.last_heartbeat_ts ≡ 501)
    × (stored.0.clients ≡ tables.clients)
    × (stored.0.tokens ≡ tables.tokens)
unfolding apply_heartbeat read_report snapshot_drive.Prelude.Json.get_field
    snapshot_drive.Prelude.Json.or_empty
apply_heartbeat_lem_example =
    apply_heartbeat_lem models 11 21 501 3 5 (some "10.0.0.1") (payload 1000) tables stored.0
      stored.1 refl

apply_heartbeat_again_example :
    (second : Database × HeartbeatResult) × (apply_heartbeat models 12 22 601 3 5
        (some "10.0.0.1")
        (payload 1000)
        stored.0
      ≡ ok second)
    × IsRepeat stored second
unfolding apply_heartbeat read_report snapshot_drive.Prelude.Json.get_field
    snapshot_drive.Prelude.Json.or_empty
apply_heartbeat_again_example =
    apply_heartbeat_again models models 11 21 501 12 22 601 3 5 (some "10.0.0.1") (payload 1000)
      tables stored.0 stored.1 refl

one-AreUnique : AreUnique (new_target 11 501 5 report ∷ [])
unfolding count
one-AreUnique = λ c r. ground arith

delete_client-apply_heartbeat_example : delete_client 5 stored.0 ≡ err integrity_error
unfolding apply_heartbeat read_report snapshot_drive.Prelude.Json.get_field
    snapshot_drive.Prelude.Json.or_empty find
delete_client-apply_heartbeat_example =
    delete_client-apply_heartbeat models 11 21 501 3 5 (some "10.0.0.1") (payload 1000) tables
      stored.0 stored.1 refl refl refl

-- what a loss of half of 2000 bytes gives rise to
abbrev findings : List Finding
findings =
    record {
      kind = backup_shrink;
      severity = critical;
      detail =
          field "prev_bytes" (num 2000)
            (field "new_bytes" (num 1000) (field "pct" (real "50.0") end));
    }
    ∷ []

-- the alerts after a heartbeat whose size was 2000 bytes before
abbrev alerts : List Alert
alerts = react models (subject_of (some acme) report) 5 11 (payload 1000) (some 2000) []
