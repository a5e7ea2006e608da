-- ===== src/Central/Alerts/Sweep.antt =====
-- backend/central/alerts/sweep.py: alerts about targets that have been silent too long. `rowid n`
-- is the id that a new alert of the n-th row gets, `clock n` the clock reading for that row.
use snapshot_drive.Prelude.{
  ℕ, ◌+◌, ◌-◌, ◌*◌, ◌/◌, ◌≡◌, ◌∙◌, Bool, false, ◌||◌, some, List, [], ◌∷◌, arith, ltb,
  if◌then◌else◌, length, is_some,
}
use snapshot_drive.Prelude.Json.{num, field, end}
use snapshot_drive.Central.Rows.{Target}
use snapshot_drive.Central.Alerts.Store.{
  Key, Alert, no_heartbeat, critical, warning, active_with, fire,
}
use snapshot_drive.Prelude.Table.{select, find, count}
use snapshot_drive.Prelude.Table.Counting.{length-select}
use snapshot_drive.Central.Alerts.Store.Fire.{same_key, is_some-find-fire}
use snapshot_drive.Central.Alerts.Store.Active.{IsUnique, fire-IsUnique}

-- an hour, in microseconds
abbrev pub hour : ℕ
hour = 3600000000

abbrev pub is_silent : ℕ → Target → Bool
is_silent cutoff t = ltb t.last_heartbeat_ts cutoff

abbrev pub silence_key : Target → Key
silence_key t = record { kind = no_heartbeat; client_id = t.client_id; target_id = some t.id }

-- The loop over the silent rows, which fires an alert for each; a row takes two readings of the
-- clock, for its detail and in `fire`.
unfoldable pub sweep_rows : (ℕ → ℕ) → (ℕ → ℕ) → ℕ → ℕ → List Target → List Alert → List Alert
sweep_rows rowid clock crit_cutoff n [] alerts = alerts
sweep_rows rowid clock crit_cutoff n (t ∷ ts) alerts =
    let severity = if ltb t.last_heartbeat_ts crit_cutoff then critical else warning in
    let hours = (clock (2 * n) - t.last_heartbeat_ts) / hour in
    let detail =
      field "hours_since" (num hours) (field "last_heartbeat_ts" (num t.last_heartbeat_ts) end) in
    sweep_rows rowid clock crit_cutoff (n + 1) ts
      (fire (rowid n) (clock (2 * n + 1)) (silence_key t) severity detail alerts).0

-- The alerts afterwards, and the count of alerts fired or refreshed.
unfoldable pub sweep_inactive :
    (ℕ → ℕ) → (ℕ → ℕ) → ℕ → ℕ → ℕ → List Target → List Alert → List Alert × ℕ
unfolding sweep_rows
sweep_inactive rowid clock now now' threshold_hours targets alerts =
    let silent = select (is_silent (now - threshold_hours * hour)) targets in
    (sweep_rows rowid clock (now' - 7 * 24 * hour) 0 silent alerts, length silent)

-- Some target of the list is the one that the key is about.
abbrev pub concerns : Key → List Target → Bool
concerns k [] = false
concerns k (t ∷ ts) = same_key k (silence_key t) || concerns k ts

is_some-find-sweep_rows :
    (rowid clock : ℕ → ℕ) (cutoff n : ℕ) (ts : List Target) (k : Key) (alerts : List Alert)
    → is_some (find (active_with k) (sweep_rows rowid clock cutoff n ts alerts))
      ≡ (is_some (find (active_with k) alerts) || concerns k ts)
unfolding sweep_rows
is_some-find-sweep_rows rowid clock cutoff n [] k alerts = ground arith
is_some-find-sweep_rows rowid clock cutoff n (t ∷ ts) k alerts =
    is_some-find-sweep_rows rowid clock cutoff (n + 1) ts k _ ∙ rw is_some-find-fire (ground arith)

sweep_rows-IsUnique :
    (rowid clock : ℕ → ℕ) (cutoff n : ℕ) (ts : List Target) (alerts : List Alert)
    → IsUnique alerts
    → IsUnique (sweep_rows rowid clock cutoff n ts alerts)
unfolding sweep_rows
sweep_rows-IsUnique rowid clock cutoff n [] alerts u = u
sweep_rows-IsUnique rowid clock cutoff n (t ∷ ts) alerts u =
    sweep_rows-IsUnique rowid clock cutoff (n + 1) ts _
      (fire-IsUnique (rowid n) (clock (2 * n + 1)) (silence_key t) _ _ alerts u)

-- After a sweep an alert is active for a key exactly if it was before or the key is the silence of
-- a target whose last heartbeat is before the cutoff; a silent target has one active alert, not
-- two, however often the sweep runs; and the count returned is that of the silent targets.
pub sweep_inactive_lem :
    (rowid clock : ℕ → ℕ) (now now' threshold : ℕ) (targets : List Target) (alerts : List Alert)
    → IsUnique alerts
    → let silent = select (is_silent (now - threshold * hour)) targets in
      let swept = sweep_inactive rowid clock now now' threshold targets alerts in
      ((k : Key)
        → is_some (find (active_with k) swept.0)
          ≡ (is_some (find (active_with k) alerts) || concerns k silent))
      × IsUnique swept.0
      × (swept.1 ≡ count (is_silent (now - threshold * hour)) targets)
unfolding sweep_inactive
sweep_inactive_lem rowid clock now now' threshold targets alerts u =
    let silent = select (is_silent (now - threshold * hour)) targets in
    (
      λ k. is_some-find-sweep_rows rowid clock (now' - 7 * 24 * hour) 0 silent k alerts,
      sweep_rows-IsUnique rowid clock (now' - 7 * 24 * hour) 0 silent alerts u,
      length-select (is_silent (now - threshold * hour)) targets,
    )
