-- ===== src/Central/Models/Applied.antt =====
-- What apply_heartbeat does to the tables, at the first call and at a repetition.
use snapshot_drive.Prelude.{
  ℕ, String, ◌≡◌, refl, sym, ap, subst, true, false, Option, some, List, is_some, ok, >>=-eq-ok,
  ok_injective, length, none, ◌++◌, ◌∷◌, [],
}
use snapshot_drive.Prelude.Table.{find, length-update}
use snapshot_drive.Prelude.Json.{Fields}
use snapshot_drive.Central.Rows.{Target, Event}
use snapshot_drive.Central.Report.{Report, read_report}
use snapshot_drive.Central.Database.{Database}
use snapshot_drive.Central.Models.{
  upsert_target, insert_event, target_of, event_with, apply_heartbeat, store_report,
  HeartbeatResult, new_event,
}
use snapshot_drive.Central.Reaction.{Outside}
use snapshot_drive.Central.Models.Upsert.{upsert_target_lem, insert_event_lem}

module _ (o : Outside) (target_row event_row now token_id client_id : ℕ) (src_ip : Option String)
    (payload : Fields) (db : Database) where
  pub apply_heartbeat-stored :
      {db' : Database} {res : HeartbeatResult}
      → apply_heartbeat o target_row event_row now token_id client_id src_ip payload db
        ≡ ok (db', res)
      → (r : Report) × (read_report payload ≡ ok r)
        × (store_report o target_row event_row now token_id client_id src_ip payload r db
            ≡ (db', res))
  unfolding apply_heartbeat
  apply_heartbeat-stored done =
      let (r, e, f) = >>=-eq-ok (read_report payload) _ done in (r, e, ok_injective f)

-- The event of a report: what the request, its token and the target say.
abbrev pub IsEvent : ℕ → ℕ → ℕ → ℕ → Option String → Fields → Report → Event → Type 0
IsEvent now token_id client_id target_id src_ip payload r ev =
    (ev.event_id ≡ r.event_id)
    × (ev.received_at ≡ now)
    × (ev.token_id ≡ token_id)
    × (ev.client_id ≡ client_id)
    × (ev.target_id ≡ target_id)
    × (ev.op ≡ r.op)
    × (ev.status ≡ r.status)
    × (ev.payload ≡ payload)
    × (ev.src_ip ≡ src_ip)

-- A heartbeat that is accepted and whose event is not in the log adds one event at the end of the
-- log, with the fields of the payload, of the call and of the target, and says that it did; where
-- the event is there, the log does not change, and the reply says so. Either way the event is then
-- in the log, and the target takes the status of the payload and the time of the call. Clients and
-- tokens stay as they were.
pub apply_heartbeat_lem :
    (o : Outside) (target_row event_row now token_id client_id : ℕ) (src_ip : Option String)
    (payload : Fields) (db db' : Database) (res : HeartbeatResult)
    → apply_heartbeat o target_row event_row now token_id client_id src_ip payload db
      ≡ ok (db', res)
    → (r : Report) × (read_report payload ≡ ok r)
      × (is_some (find (event_with r.event_id) db'.events) ≡ true)
      × (is_some (find (event_with r.event_id) db.events) ≡ true
          → (res.event_inserted ≡ false) × (db'.events ≡ db.events))
      × (find (event_with r.event_id) db.events ≡ none
          → (res.event_inserted ≡ true)
            × (ev : Event) × (db'.events ≡ db.events ++ ev ∷ [])
            × IsEvent now token_id client_id res.target_id src_ip payload r ev)
      × (t : Target) × (find (target_of client_id r) db'.targets ≡ some t)
      × (t.id ≡ res.target_id)
      × (t.last_exec_status ≡ r.status)
      × (t.last_heartbeat_ts ≡ now)
      × (db'.clients ≡ db.clients)
      × (db'.tokens ≡ db.tokens)
unfolding store_report
apply_heartbeat_lem o target_row event_row now token_id client_id src_ip payload db db' res done =
    let (r, e, stored) =
      apply_heartbeat-stored o target_row event_row now token_id client_id src_ip payload db done in
    let (t, there, own, status, seen, _, _) =
      upsert_target_lem target_row now client_id r db.targets in
    let up = (upsert_target target_row now client_id r db.targets).1 in
    let ev = new_event event_row now token_id client_id up.target_id src_ip payload r in
    let (logged, fresh, known) = insert_event_lem ev db.events in
    (
      r,
      e,
      subst (λ x. is_some (find (event_with r.event_id) x.0.events) ≡ true) stored logged,
      λ h. subst (λ x. (x.1.event_inserted ≡ false) × (x.0.events ≡ db.events)) stored (known h),
      λ h.
          subst
            (λ x.
              (x.1.event_inserted ≡ true)
              × (ev : Event) × (x.0.events ≡ db.events ++ ev ∷ [])
              × IsEvent now token_id client_id x.1.target_id src_ip payload r ev)
            stored
            ((fresh h).0, ev, (fresh h).1, (refl, refl, refl, refl, refl, refl, refl, refl, refl)),
      t,
      subst (λ x. find (target_of client_id r) x.0.targets ≡ some t) stored there,
      subst (λ x. t.id ≡ x.1.target_id) stored own,
      status,
      seen,
      sym (ap (λ x. x.0.clients) stored),
      sym (ap (λ x. x.0.tokens) stored),
    )

upsert_target_again :
    (rowid rowid' now now' client_id : ℕ) (r : Report) (targets : List Target)
    → let (after, up) = upsert_target rowid now client_id r targets in
      let (again, up') = upsert_target rowid' now' client_id r after in
      (up'.target_id ≡ up.target_id) × (up'.created ≡ false) × (length again ≡ length after)
unfolding upsert_target
upsert_target_again rowid rowid' now now' client_id r targets =
    let (t, there, own, _, _, _, _) = upsert_target_lem rowid now client_id r targets in
    rw (there, upsert_target) (own, refl, length-update _ _ _)

-- What a second call with the same payload leaves of the first.
abbrev pub IsRepeat : Database × HeartbeatResult → Database × HeartbeatResult → Type 0
IsRepeat first second =
    (second.0.events ≡ first.0.events)
    × (length second.0.targets ≡ length first.0.targets)
    × (second.1.event_inserted ≡ false)
    × (second.1.target_created ≡ false)
    × (second.1.target_id ≡ first.1.target_id)

store_report_again :
    (o o' : Outside) (t e now t' e' now' token_id client_id : ℕ) (src_ip : Option String)
    (payload : Fields) (r : Report) (db : Database)
    → let first = store_report o t e now token_id client_id src_ip payload r db in
      IsRepeat first (store_report o' t' e' now' token_id client_id src_ip payload r first.0)
unfolding store_report
store_report_again o o' t e now t' e' now' token_id client_id src_ip payload r db =
    let (own, old, rows) = upsert_target_again t t' now now' client_id r db.targets in
    let up = (upsert_target t now client_id r db.targets).1 in
    let ev = new_event e now token_id client_id up.target_id src_ip payload r in
    let (events, _) = insert_event ev db.events in
    let (logged, _, _) = insert_event_lem ev db.events in
    let up' =
      (upsert_target t' now' client_id r (upsert_target t now client_id r db.targets).0).1 in
    let ev' = new_event e' now' token_id client_id up'.target_id src_ip payload r in
    let (_, _, known) = insert_event_lem ev' (insert_event ev db.events).0 in
    let (shut, same) = known logged in (same, rows, shut, old, own)

-- A heartbeat that is sent again, as after a reply that was lost, is accepted again and leaves the
-- log of events and the number of targets as they were; the reply names the same target.
pub apply_heartbeat_again :
    (o o' : Outside) (t e now t' e' now' token_id client_id : ℕ) (src_ip : Option String)
    (payload : Fields) (db db' : Database) (res : HeartbeatResult)
    → apply_heartbeat o t e now token_id client_id src_ip payload db ≡ ok (db', res)
    → (second : Database × HeartbeatResult) × (apply_heartbeat o' t' e' now' token_id client_id
          src_ip payload db'
        ≡ ok second)
      × IsRepeat (db', res) second
unfolding apply_heartbeat
apply_heartbeat_again o o' t e now t' e' now' token_id client_id src_ip payload db db' res done =
    let (r, read, stored) =
      apply_heartbeat-stored o t e now token_id client_id src_ip payload db done in
    (
      store_report o' t' e' now' token_id client_id src_ip payload r db',
      rw read refl,
      subst (λ x. IsRepeat x (store_report o' t' e' now' token_id client_id src_ip payload r x.0))
          stored
          (store_report_again o o' t e now t' e' now' token_id client_id src_ip payload r db),
    )
