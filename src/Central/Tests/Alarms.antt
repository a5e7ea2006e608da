-- ===== src/Central/Tests/Alarms.antt =====
-- The theorems about the alerts at concrete inputs.
use snapshot_drive.Prelude.{◌||◌, ◌+◌, ◌*◌, ◌-◌, ◌≡◌, none, some, List, [], ◌∷◌, arith, is_some}
use snapshot_drive.Prelude.Table.{find, count, select}
use snapshot_drive.Prelude.Json
use snapshot_drive.Prelude.Json.{real, num, field, end}
use snapshot_drive.Central.Rows.{Target}
use snapshot_drive.Central.Alerts.Store.{
  Alert, Key, no_heartbeat, backup_shrink, warning, critical, new_alert, active_with,
}
use snapshot_drive.Central.Alerts.Store.Active.{
  IsUnique, run, run-IsUnique, Operation, firing, resolving, acknowledging,
}
use snapshot_drive.Central.Alerts.Rules.{Finding}
use snapshot_drive.Central.Alerts.Sweep.{
  sweep_inactive, sweep_inactive_lem, is_silent, concerns, hour,
}

abbrev key : Key
key = record { kind = no_heartbeat; client_id = 5; target_id = some 11 }

abbrev silence : Alert
silence = new_alert 1 100 key warning end

-- fired, fired again, resolved, fired as a new alert, acknowledged
abbrev history : List Operation
history =
    firing 1 100 key warning end
    ∷ firing 2 200 key critical end
    ∷ resolving 300 1
    ∷ firing 3 400 key warning end
    ∷ acknowledging 500 3 "ana"
    ∷ []

run-IsUnique_example : IsUnique (run history [])
run-IsUnique_example = run-IsUnique history

-- a loss of half
abbrev findings : List Finding
findings =
    record {
      kind = backup_shrink;
      severity = critical;
      detail =
          field "prev_bytes" (num 2000)
            (field "new_bytes" (num 1000) (field "pct" (real "50.0") end));
    }
    ∷ []

abbrev target : Target
target = record {
  id = 11;
  client_id = 5;
  category = "os";
  subkey = "linux";
  label = "srv1";
  entorno = none;
  pais = none;
  last_exec_ts = none;
  last_exec_status = "ok";
  last_size_bytes = none;
  total_size_bytes = some 1000;
  count_files = none;
  oldest_backup_ts = none;
  newest_backup_ts = none;
  last_heartbeat_ts = 100;
  snapctl_version = none;
  rclone_version = none;
  created_at = 50;
}

none-IsUnique : IsUnique []
unfolding count
none-IsUnique = record { at_most_one = λ k. omega arith }

sweep_inactive_lem_example :
    let silent = select (is_silent (49 * hour - 48 * hour)) (target ∷ []) in
    let swept =
      sweep_inactive
        (λ n. 1 + n)
        (λ n. 49 * hour + n)
        (49 * hour)
        (49 * hour)
        48
        (target ∷ [])
        [] in
    ((k : Key)
      → is_some (find (active_with k) swept.0)
        ≡ (is_some (find (active_with k) []) || concerns k silent))
    × IsUnique swept.0
    × (swept.1 ≡ count (is_silent (49 * hour - 48 * hour)) (target ∷ []))
sweep_inactive_lem_example =
    sweep_inactive_lem (λ n. 1 + n) (λ n. 49 * hour + n) (49 * hour) (49 * hour) 48 (target ∷ []) []
      none-IsUnique
