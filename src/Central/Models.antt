-- ===== src/Central/Models.antt =====
-- backend/central/models.py: what a validated heartbeat does to the tables. The handler has just found
-- the client and its token, so that the references of the new rows hold. `target_row` and `event_row`
-- are the ids that SQLite gives to new rows.
pub mod Upsert
pub mod Applied
use snapshot_drive.Prelude.{
  ℕ, String, Bool, true, false, ◌&&◌, Option, none, some, List, [], ◌∷◌, ◌++◌, ◌==◌, if◌then◌else◌,
  str_eq, is_some, Result, ok, ◌>>=◌,
}
use snapshot_drive.Prelude.Table.{find, update}
use snapshot_drive.Prelude.Json.{Fields}
use snapshot_drive.Central.Rows.{Client, Target, Event}
use snapshot_drive.Central.Report.{Report, ApplyError, read_report}
use snapshot_drive.Central.Database.{Database}
use snapshot_drive.Central.Clients.{get_client}
use snapshot_drive.Central.Reaction.{Outside, react}
use snapshot_drive.Central.Alerts.Dispatch.{Subject}

abbrev pub or_old {ℓ} : {A : Type ℓ} → Option A → Option A → Option A
or_old (some a) old = some a
or_old none old = old

-- WHERE client_id=? AND category=? AND subkey=? AND label=?
abbrev pub target_of : ℕ → Report → Target → Bool
target_of client_id r t =
    t.client_id == client_id
    && (str_eq t.category r.category && (str_eq t.subkey r.subkey && str_eq t.label r.label))

abbrev pub target_with : ℕ → Target → Bool
target_with i t = t.id == i

abbrev pub new_target : ℕ → ℕ → ℕ → Report → Target
new_target rowid now client_id r = record {
  id = rowid;
  client_id = client_id;
  category = r.category;
  subkey = r.subkey;
  label = r.label;
  entorno = r.entorno;
  pais = r.pais;
  last_exec_ts = r.started_at;
  last_exec_status = r.status;
  last_size_bytes = r.last_size_bytes;
  total_size_bytes = r.total_size_bytes;
  count_files = r.count_files;
  oldest_backup_ts = r.oldest_ts;
  newest_backup_ts = r.newest_ts;
  last_heartbeat_ts = now;
  snapctl_version = r.snapctl_version;
  rclone_version = r.rclone_version;
  created_at = now;
}

-- The UPDATE, where COALESCE keeps an old value if the report has none.
abbrev pub reported : ℕ → Report → Target → Target
reported now r t = record t {
  last_exec_ts = or_old r.started_at t.last_exec_ts;
  last_exec_status = r.status;
  last_size_bytes = or_old r.last_size_bytes t.last_size_bytes;
  total_size_bytes = or_old r.total_size_bytes t.total_size_bytes;
  count_files = or_old r.count_files t.count_files;
  oldest_backup_ts = or_old r.oldest_ts t.oldest_backup_ts;
  newest_backup_ts = or_old r.newest_ts t.newest_backup_ts;
  last_heartbeat_ts = now;
  snapctl_version = or_old r.snapctl_version t.snapctl_version;
  rclone_version = or_old r.rclone_version t.rclone_version;
}

-- What the upsert tells the rest: the target's id, whether it is new, its total size before.
pub record Upserted : Type 0 where
  pub target_id : ℕ
  pub created : Bool
  pub prev_total : Option ℕ

unfoldable pub upsert_target : ℕ → ℕ → ℕ → Report → List Target → List Target × Upserted
upsert_target rowid now client_id r targets = elim (find (target_of client_id r) targets) [
  | none ↦ (
    targets ++ new_target rowid now client_id r ∷ [],
    record { target_id = rowid; created = true; prev_total = none },
  )
  | some t ↦ (
    update (target_with t.id) (reported now r) targets,
    record { target_id = t.id; created = false; prev_total = t.total_size_bytes },
  )
]

abbrev pub event_with : String → Event → Bool
event_with e ev = str_eq ev.event_id e

-- The INSERT under UNIQUE(event_id), whose IntegrityError is dropped.
unfoldable pub insert_event : Event → List Event → List Event × Bool
insert_event ev events =
    if is_some (find (event_with ev.event_id) events)
    then (events, false)
    else (events ++ ev ∷ [], true)

abbrev pub subject_of : Option Client → Report → Subject
subject_of client r = record {
  proyecto = elim client [ none ↦ none | some c ↦ some c.proyecto ];
  organizacion = elim client [ none ↦ none | some c ↦ c.organizacion ];
  label = r.label;
  category = r.category;
  subkey = r.subkey;
}

pub record HeartbeatResult : Type 0 where
  pub event_inserted : Bool
  pub target_created : Bool
  pub target_id : ℕ

abbrev pub new_event : ℕ → ℕ → ℕ → ℕ → ℕ → Option String → Fields → Report → Event
new_event rowid now token_id client_id target_id src_ip payload r = record {
  id = rowid;
  event_id = r.event_id;
  received_at = now;
  token_id = token_id;
  client_id = client_id;
  target_id = target_id;
  op = r.op;
  status = r.status;
  payload = payload;
  src_ip = src_ip;
}

-- The transaction and what follows it, for a report that was read. `target_row` and `event_row` are
-- the ids that SQLite gives, `now` the clock reading of the transaction.
unfoldable pub store_report :
    Outside
    → ℕ
    → ℕ
    → ℕ
    → ℕ
    → ℕ
    → Option String
    → Fields
    → Report
    → Database
    → Database × HeartbeatResult
unfolding upsert_target insert_event react get_client
store_report o target_row event_row now token_id client_id src_ip payload r db =
    let (targets, up) = upsert_target target_row now client_id r db.targets in
    let (events, inserted) =
      insert_event (new_event event_row now token_id client_id up.target_id src_ip payload r)
        db.events in
    let subject = subject_of (get_client client_id db.clients) r in
    (
      record db {
        targets = targets;
        events = events;
        alerts = react o subject client_id up.target_id payload up.prev_total db.alerts;
      },
      record { event_inserted = inserted; target_created = up.created; target_id = up.target_id },
    )

-- What raises before the commit leaves the tables as they were.
unfoldable pub apply_heartbeat :
    Outside
    → ℕ
    → ℕ
    → ℕ
    → ℕ
    → ℕ
    → Option String
    → Fields
    → Database
    → Result ApplyError (Database × HeartbeatResult)
unfolding store_report
apply_heartbeat o target_row event_row now token_id client_id src_ip payload db = do
  r ← read_report payload
  ok (store_report o target_row event_row now token_id client_id src_ip payload r db)
