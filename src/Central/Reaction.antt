-- ===== src/Central/Reaction.antt =====
-- backend/central/models.py, the last part of apply_heartbeat: the alerts that a heartbeat fires and
-- resolves. `clock` and `alert_id` are the clock readings and the ids of new alerts in the order in
-- which the call takes them.
pub mod Loops
pub mod Own
use snapshot_drive.Prelude.{
  ℕ, ◌+◌, ◌*◌, Bool, true, false, Option, none, some, List, [], ◌∷◌, if◌then◌else◌, is_some, Result,
  ok, err, length,
}
use snapshot_drive.Prelude.Json.{Fields}
use snapshot_drive.Central.Alerts.Store.{Alert, AlertType, Key, fire, resolve_active_by_key}
use snapshot_drive.Central.Alerts.Rules.{
  Finding, Rounding, RuleError, evaluate_heartbeat, resolves_keys,
}
use snapshot_drive.Central.Alerts.Dispatch.{Channels, Subject, notify}

abbrev pub alert_key : AlertType → ℕ → ℕ → Key
alert_key kind client_id target_id = record {
  kind = kind;
  client_id = client_id;
  target_id = some target_id;
}

-- What the call takes from outside: the channels, the rounding of floats, the threshold of
-- the configuration, ids of new alerts, clock readings.
pub record Outside : Type 0 where
  pub channels : Channels
  pub rounded : Rounding
  pub shrink_pct : ℕ
  pub alert_id : ℕ → ℕ
  pub clock : ℕ → ℕ

-- An alert that was not notified yet is notified.
unfoldable pub notify_new : Outside → Subject → ℕ → Alert → List Alert → List Alert
notify_new o s now a alerts =
    if is_some a.notified_at then alerts else (notify o.channels "alert.fired" s now a alerts).0

-- The loop over the findings; it ends early if an alert that was fired is not found.
unfoldable pub fire_findings :
    Outside → Subject → ℕ → ℕ → ℕ → List Finding → List Alert → List Alert × Bool
unfolding notify_new
fire_findings o s client_id target_id n [] alerts = (alerts, true)
fire_findings o s client_id target_id n (f ∷ fs) alerts =
    let (fired, alert) =
      fire (o.alert_id n) (o.clock (2 * n)) (alert_key f.kind client_id target_id) f.severity
        f.detail alerts in
    elim alert [
      | none ↦ (fired, false)
      | some a ↦
          fire_findings o s client_id target_id (n + 1) fs
            (notify_new o s (o.clock (2 * n + 1)) a fired)
    ]

-- The loop over the types to resolve, whose n-th call takes the n-th clock reading.
unfoldable pub resolve_types : Outside → ℕ → ℕ → ℕ → List AlertType → List Alert → List Alert
resolve_types o client_id target_id n [] alerts = alerts
resolve_types o client_id target_id n (k ∷ ks) alerts =
    resolve_types o client_id target_id (n + 1) ks
      (resolve_active_by_key (o.clock n) (alert_key k client_id target_id) alerts).0

abbrev pub resolve_ok :
    Outside → ℕ → ℕ → ℕ → Result RuleError (List AlertType) → List Alert → List Alert
resolve_ok o client_id target_id n (ok types) alerts =
    resolve_types o client_id target_id n types alerts
resolve_ok o client_id target_id n (err _) alerts = alerts

-- The part after the commit, whose exceptions are logged and dropped.
unfoldable pub react : Outside → Subject → ℕ → ℕ → Fields → Option ℕ → List Alert → List Alert
unfolding fire_findings resolve_types
react o s client_id target_id payload prev alerts =
    elim (evaluate_heartbeat o.rounded payload prev o.shrink_pct) [
      | err _ ↦ alerts
      | ok findings ↦
          let (fired, whole) = fire_findings o s client_id target_id 0 findings alerts in
          if whole
          then resolve_ok o client_id target_id (2 * length findings) (resolves_keys payload) fired
          else fired
    ]
