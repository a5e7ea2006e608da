-- ===== src/Central/Clients/Deletion.antt =====
-- Which clients can be deleted, and what the deletion leaves.
use snapshot_drive.Prelude.{
  ℕ, ◌≡◌, ◌≢◌, refl, subst, inl, inr, Bool, true, false, Option, none, List, arith, ◌==◌, ==_self,
  Bool-cases, is_some, ok, err, String,
}
use snapshot_drive.Prelude.Table.{find, find-delete_self, find-delete_ne, is_some-find-append}
use snapshot_drive.Prelude.Json.{Fields}
use snapshot_drive.Central.Rows.{Event}
use snapshot_drive.Central.Report.{Report}
use snapshot_drive.Central.Database.{Database}
use snapshot_drive.Central.Clients.{
  delete_client, without_client, client_with, refers_to, integrity_error, get_client,
}
use snapshot_drive.Central.Models.{
  apply_heartbeat, HeartbeatResult, store_report, insert_event, upsert_target, new_event,
  event_with,
}
use snapshot_drive.Central.Reaction.{Outside}
use snapshot_drive.Central.Models.Applied.{apply_heartbeat-stored}

delete_client_blocked :
    (client_id : ℕ) (db : Database)
    → is_some (find (client_with client_id) db.clients) ≡ true
    → is_some (find (refers_to client_id db) db.events) ≡ true
    → delete_client client_id db ≡ err integrity_error
unfolding delete_client
delete_client_blocked client_id db there named = rw (there, named) refl

-- A client is deleted exactly if no event refers to it; then it is gone with its targets and
-- tokens, while the events and the other clients stay.
pub delete_client_lem :
    (client_id : ℕ) (db : Database)
    → is_some (find (client_with client_id) db.clients) ≡ true
    → (is_some (find (refers_to client_id db) db.events) ≡ true
        → delete_client client_id db ≡ err integrity_error)
      × (is_some (find (refers_to client_id db) db.events) ≡ false
          → (db' : Database) × (delete_client client_id db ≡ ok db')
            × (get_client client_id db'.clients ≡ none)
            × (find (λ t. t.client_id == client_id) db'.targets ≡ none)
            × (find (λ t. t.client_id == client_id) db'.tokens ≡ none)
            × (db'.events ≡ db.events)
            × ((i : ℕ) → i ≢ client_id → get_client i db'.clients ≡ get_client i db.clients))
unfolding delete_client get_client
delete_client_lem client_id db there = (
  delete_client_blocked client_id db there,
  λ free. (
    without_client client_id db,
    rw (there, free) refl,
    find-delete_self (client_with client_id) db.clients,
    find-delete_self _ db.targets,
    find-delete_self _ db.tokens,
    refl,
    λ i other.
        find-delete_ne (client_with i) (client_with client_id) db.clients (λ c h. ground arith),
  ),
)

insert_event-named :
    (ev : Event) (events : List Event) (p : Event → Bool)
    → p ev ≡ true
    → (insert_event ev events).1 ≡ true
    → is_some (find p (insert_event ev events).0) ≡ true
unfolding insert_event
insert_event-named ev events p named inserted =
    elim (Bool-cases (is_some (find (event_with ev.event_id) events))) [
      | inl known ↦ let e : (insert_event ev events).1 ≡ false = rw known refl in cc
      | inr new ↦ rw new (is_some-find-append p events ev named)
    ]

store_report-named :
    (o : Outside) (t e now token_id client_id : ℕ) (src_ip : Option String) (payload : Fields)
    (r : Report) (db : Database)
    → let (db', res) = store_report o t e now token_id client_id src_ip payload r db in
      res.event_inserted ≡ true
      → is_some (find (client_with client_id) db.clients) ≡ true
      → delete_client client_id db' ≡ err integrity_error
unfolding store_report
store_report-named o t e now token_id client_id src_ip payload r db inserted there =
    let (targets, up) = upsert_target t now client_id r db.targets in
    let ev = new_event e now token_id client_id up.target_id src_ip payload r in
    delete_client_blocked client_id
      (store_report o t e now token_id client_id src_ip payload r db).0 there
      (insert_event-named ev db.events
        (refers_to client_id (store_report o t e now token_id client_id src_ip payload r db).0)
        (ground (arith, ==_self client_id)) inserted)

-- From its first recorded heartbeat on a client cannot be deleted: the event refers to it, and its
-- reference has no ON DELETE action, although the comment of the function says that the events
-- stay as orphans.
pub delete_client-apply_heartbeat :
    (o : Outside) (t e now token_id client_id : ℕ) (src_ip : Option String) (payload : Fields)
    (db db' : Database) (res : HeartbeatResult)
    → apply_heartbeat o t e now token_id client_id src_ip payload db ≡ ok (db', res)
    → res.event_inserted ≡ true
    → is_some (find (client_with client_id) db.clients) ≡ true
    → delete_client client_id db' ≡ err integrity_error
delete_client-apply_heartbeat o t e now token_id client_id src_ip payload db db' res done inserted
      there =
    let (r, _, stored) =
      apply_heartbeat-stored o t e now token_id client_id src_ip payload db done in
    let blocked = store_report-named o t e now token_id client_id src_ip payload r db in
    subst (λ x. x.1.event_inserted ≡ true → delete_client client_id x.0 ≡ err integrity_error)
      stored (λ h. blocked h there) inserted
