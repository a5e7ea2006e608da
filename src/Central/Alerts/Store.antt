-- ===== src/Central/Alerts/Store.antt =====
-- backend/central/alerts/store.py: the rows of central_alerts and the statements on them. The
-- column detail_json is kept as the dict that it holds. `rowid` is the id that SQLite gives to a
-- new row, `now` the clock reading of the call.
use snapshot_drive.Prelude.{
  ℕ, String, Bool, true, false, not, ◌&&◌, Option, none, some, List, [], ◌∷◌, ◌++◌, map, ◌==◌, take,
  is_some,
}
pub mod Active
pub mod Fire
use snapshot_drive.Prelude.Json.{Json, str, Fields}
use snapshot_drive.Prelude.Json
use snapshot_drive.Prelude.Table.{find, update, count, select}
use snapshot_drive.Prelude.Sort.{sort_by, downwards}

-- the values that the CHECK constraints of the table admit
pub data AlertType : Type 0 where
  no_heartbeat folder_missing backup_shrink : AlertType

pub data Severity : Type 0 where
  info warning critical : Severity

pub record Alert : Type 0 where
  pub id : ℕ
  pub kind : AlertType
  pub client_id : ℕ
  pub target_id : Option ℕ
  pub severity : Severity
  pub triggered_at : ℕ
  pub last_seen_at : ℕ
  pub resolved_at : Option ℕ
  pub notified_at : Option ℕ
  pub detail : Fields

abbrev pub same_type : AlertType → AlertType → Bool
same_type no_heartbeat no_heartbeat = true
same_type folder_missing folder_missing = true
same_type backup_shrink backup_shrink = true
same_type _ _ = false

-- (target_id IS NULL AND ? IS NULL) OR target_id = ?
abbrev pub same_target : Option ℕ → Option ℕ → Bool
same_target none none = true
same_target (some a) (some b) = a == b
same_target _ _ = false

-- The key by which an alert is the same alert.
pub record Key : Type 0 where
  pub kind : AlertType
  pub client_id : ℕ
  pub target_id : Option ℕ

abbrev pub is_active : Alert → Bool
is_active a = not (is_some a.resolved_at)

-- The WHERE clause of fire and resolve_active_by_key.
abbrev pub active_with : Key → Alert → Bool
active_with k a =
    same_type a.kind k.kind
    && (a.client_id == k.client_id && (same_target a.target_id k.target_id && is_active a))

abbrev pub by_id : ℕ → Alert → Bool
by_id i a = a.id == i

unfoldable pub get_by_id : ℕ → List Alert → Option Alert
get_by_id i rows = find (by_id i) rows

-- The columns that a repeated alert gets.
abbrev pub refreshed : ℕ → Severity → Fields → Alert → Alert
refreshed now severity merged a = record a {
  last_seen_at = now;
  severity = severity;
  detail = merged;
}

abbrev pub new_alert : ℕ → ℕ → Key → Severity → Fields → Alert
new_alert rowid now k severity detail = record {
  id = rowid;
  kind = k.kind;
  client_id = k.client_id;
  target_id = k.target_id;
  severity = severity;
  triggered_at = now;
  last_seen_at = now;
  resolved_at = none;
  notified_at = none;
  detail = detail;
}

-- The row that the SELECT found, or none, decides between the UPDATE and the INSERT.
unfoldable pub store_fired :
    ℕ → ℕ → Key → Severity → Fields → Option Alert → List Alert → List Alert × Option Alert
unfolding get_by_id
store_fired rowid now k severity detail (some a) rows =
    let rows' = update (by_id a.id) (refreshed now severity (Json.merge a.detail detail)) rows in
    (rows', get_by_id a.id rows')
store_fired rowid now k severity detail none rows =
    let rows' = rows ++ new_alert rowid now k severity detail ∷ [] in (rows', get_by_id rowid rows')

unfoldable pub fire : ℕ → ℕ → Key → Severity → Fields → List Alert → List Alert × Option Alert
unfolding store_fired
fire rowid now k severity detail rows =
    store_fired rowid now k severity detail (find (active_with k) rows) rows

abbrev pub resolved : ℕ → Alert → Alert
resolved now a = record a { resolved_at = some now }

unfoldable pub resolve : ℕ → ℕ → List Alert → List Alert
resolve now i = update (λ a. by_id i a && is_active a) (resolved now)

-- The rows afterwards, and how many of them were changed.
unfoldable pub resolve_active_by_key : ℕ → Key → List Alert → List Alert × ℕ
resolve_active_by_key now k rows =
    (update (active_with k) (resolved now) rows, count (active_with k) rows)

abbrev pub acknowledged : ℕ → Fields → Alert → Alert
acknowledged now detail a = record a { resolved_at = some now; detail = detail }

unfoldable pub acknowledge : ℕ → ℕ → String → List Alert → List Alert
acknowledge now i actor rows = elim (get_by_id i rows) [
  | none ↦ rows
  | some a ↦
      update (by_id i) (acknowledged now (Json.set_field "acknowledged_by" (str actor) a.detail))
        rows
]

abbrev pub notified : ℕ → Alert → Alert
notified now a = record a { notified_at = some now }

unfoldable pub mark_notified : ℕ → ℕ → List Alert → List Alert
mark_notified now i = update (by_id i) (notified now)

abbrev pub is_critical : Severity → Bool
is_critical critical = true
is_critical _ = false

unfoldable pub count_active_critical : List Alert → ℕ
count_active_critical = count (λ a. is_active a && is_critical a.severity)

-- The columns that the LEFT JOINs add to a listed alert.
pub record Listed : Type 0 where
  pub alert : Alert
  pub client_proyecto : Option String
  pub target : Option (String × String × String)

-- What the joined tables hold: a client's proyecto; a target's category, subkey and label.
pub record Joined : Type 0 where
  pub proyecto_of : ℕ → Option String
  pub target_of : ℕ → Option (String × String × String)

abbrev pub join_target : Joined → Option ℕ → Option (String × String × String)
join_target j none = none
join_target j (some t) = j.target_of t

abbrev pub join : Joined → Alert → Listed
join j a = record {
  alert = a;
  client_proyecto = j.proyecto_of a.client_id;
  target = join_target j a.target_id;
}

unfoldable pub list_with_join : Joined → (Alert → Bool) → ℕ → List Alert → List Listed
list_with_join j keep limit rows =
    map (join j) (take limit (sort_by (downwards (λ a. a.triggered_at)) (select keep rows)))

unfoldable pub list_active : Joined → ℕ → List Alert → List Listed
unfolding list_with_join
list_active j = list_with_join j is_active

unfoldable pub list_recent : Joined → ℕ → List Alert → List Listed
unfolding list_with_join
list_recent j = list_with_join j (λ a. true)
