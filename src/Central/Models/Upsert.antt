-- ===== src/Central/Models/Upsert.antt =====
-- What a heartbeat does to the row of its target and to the log of events.
use snapshot_drive.Prelude.{
  ℕ, String, ◌≡◌, refl, sym, ap, ◌∙◌, ◌≢◌, inl, inr, Bool, true, false, some, List, [], ◌∷◌, ◌++◌,
  arith, none, ◌==◌, ==_self, Bool-cases, Option-cases, str_eq, eq_iff, eq_refl, is_some, ◌≤◌, ◌&&◌,
}
use snapshot_drive.Prelude.Table.{
  find, find-update_ne, find-append_none, find-append_ne, count, find-update,
}
use snapshot_drive.Prelude.Table.Counting.{count-update_same, count-append_one, count-none}
use snapshot_drive.Central.Rows.{Target, Event}
use snapshot_drive.Central.Report.{Report}
use snapshot_drive.Central.Models.{
  upsert_target, insert_event, target_of, target_with, new_target, reported, or_old, event_with,
}

target_of-new :
    (rowid now client_id : ℕ) (r : Report)
    → target_of client_id r (new_target rowid now client_id r) ≡ true
target_of-new rowid now client_id r =
    ground (arith, ==_self client_id, eq_refl r.category, eq_refl r.subkey, eq_refl r.label)

-- The report's target, new or old, shows the status and the time of the heartbeat, and its total
-- size where the heartbeat gives none stays; no other target changes.
pub upsert_target_lem :
    (rowid now client_id : ℕ) (r : Report) (targets : List Target)
    → let (after, up) = upsert_target rowid now client_id r targets in
      (t : Target) × (find (target_of client_id r) after ≡ some t)
      × (t.id ≡ up.target_id)
      × (t.last_exec_status ≡ r.status)
      × (t.last_heartbeat_ts ≡ now)
      × (t.total_size_bytes ≡ or_old r.total_size_bytes up.prev_total)
      × ((i : ℕ) → i ≢ up.target_id → find (target_with i) after ≡ find (target_with i) targets)
unfolding upsert_target
upsert_target_lem rowid now client_id r targets =
    elim (Option-cases (find (target_of client_id r) targets)) [
      | inl absent ↦
          rw (absent, upsert_target)
            (
              new_target rowid now client_id r,
              find-append_none (target_of client_id r) targets _ absent
                  ∙ rw (target_of-new rowid now client_id r),
              refl,
              refl,
              refl,
              ground arith,
              λ i other. find-append_ne (target_with i) targets _ (ground arith),
            )
      | inr (t, there) ↦
          rw (there, upsert_target)
            (
              reported now r t,
              find-update (target_of client_id r) (target_with t.id) (reported now r) targets
                    (λ x. refl)
                  ∙ rw (there, ==_self t.id),
              refl,
              refl,
              refl,
              refl,
              λ i other.
                  find-update_ne (target_with i) (target_with t.id) (reported now r) targets
                    (λ x. refl) (λ x h. ground arith),
            )
    ]

abbrev has_place : ℕ → String → String → String → Target → Bool
has_place client_id category subkey label t =
    t.client_id == client_id
    && (str_eq t.category category && (str_eq t.subkey subkey && str_eq t.label label))

-- No client has two targets of one category, subkey and label.
abbrev pub AreUnique : List Target → Type 0
AreUnique targets = (client_id : ℕ) (r : Report) → count (target_of client_id r) targets ≤ 1

same_place :
    (rowid now c client_id : ℕ) (s r : Report)
    → target_of c s (new_target rowid now client_id r) ≡ true
    → target_of c s ≡ target_of client_id r
same_place rowid now c client_id s r h =
    let e₁ : client_id ≡ c = ground arith in
    let e₂ : r.category ≡ s.category = (eq_iff r.category s.category).0 (ground arith) in
    let e₃ : r.subkey ≡ s.subkey = (eq_iff r.subkey s.subkey).0 (ground arith) in
    let e₄ : r.label ≡ s.label = (eq_iff r.label s.label).0 (ground arith) in
    sym (
      ap (λ x. has_place x r.category r.subkey r.label) e₁
      ∙ ap (λ x. has_place c x r.subkey r.label) e₂
      ∙ ap (λ x. has_place c s.category x r.label) e₃
      ∙ ap (has_place c s.category s.subkey) e₄)

-- A heartbeat never gives a client a second target of the same category, subkey and label.
pub upsert_target-AreUnique :
    (rowid now client_id : ℕ) (r : Report) (targets : List Target)
    → AreUnique targets
    → AreUnique (upsert_target rowid now client_id r targets).0
unfolding upsert_target
upsert_target-AreUnique rowid now client_id r targets unique c s =
    elim (Option-cases (find (target_of client_id r) targets)) [
      | inl absent ↦
          let added = new_target rowid now client_id r in
          let grown = count-append_one (target_of c s) targets added in
          let before = unique c s in
          rw (absent, upsert_target)
            (elim (Bool-cases (target_of c s added)) [
              | inl mine ↦
                  let nobody : count (target_of c s) targets ≡ 0 =
                    count-none (target_of c s) targets
                      (rw (same_place rowid now c client_id s r mine) absent) in
                  rw (grown, mine, nobody) (omega arith)
              | inr other ↦ rw (grown, other) before
            ])
      | inr (t, there) ↦
          let same =
            count-update_same (target_of c s) (target_with t.id) (reported now r) targets
              (λ x h. refl) in
          let before = unique c s in rw (there, upsert_target) (rw same before)
    ]

-- What a call leaves in the log of events: the event is there, and it is new or nothing changed.
pub insert_event_lem :
    (ev : Event) (events : List Event)
    → let (after, inserted) = insert_event ev events in
      (is_some (find (event_with ev.event_id) after) ≡ true)
      × (find (event_with ev.event_id) events ≡ none
          → (inserted ≡ true) × (after ≡ events ++ ev ∷ []))
      × (is_some (find (event_with ev.event_id) events) ≡ true
          → (inserted ≡ false) × (after ≡ events))
unfolding insert_event
insert_event_lem ev events = elim (Option-cases (find (event_with ev.event_id) events)) [
  | inl absent ↦
      let found = find-append_none (event_with ev.event_id) events ev absent in
      rw (absent, insert_event) (rw (found, eq_refl ev.event_id) refl, λ h. (refl, refl), λ h. cc)
  | inr (old, there) ↦ rw (there, insert_event) (rw there refl, λ h. cc, λ h. (refl, refl))
]
