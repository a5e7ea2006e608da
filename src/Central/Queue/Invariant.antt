-- ===== src/Central/Queue/Invariant.antt =====
-- What every row of the queue satisfies, whatever the operations that led to it.
use snapshot_drive.Prelude.{
  ℕ, ◌+◌, ◌<◌, String, ◌≡◌, true, Option, none, some, List, arith, Option-cases, ok, inl, inr, All,
  All-append, subst, >>=-eq-ok, ok_injective, ap, eq_refl, Result, refl,
}
use snapshot_drive.Prelude.Table.{find, All-update, All-delete, find-append_none}
use snapshot_drive.Prelude.Json.{Json}
use snapshot_drive.Central.Queue.{
  Item, is_pending, by_event, max_attempts, insert_new, event_key, enqueue, mark_done, mark_failed,
  mark_dead, after_failure, killed, Error, fresh_item,
}

-- A row that waits has attempts left.
abbrev pub HasAttempts : Item → Type 0
HasAttempts r = is_pending r.state ≡ true → r.attempts < max_attempts

abbrev pub IsLive : List Item → Type 0
IsLive rows = All HasAttempts rows

after_failure-HasAttempts :
    (now n : ℕ) (error : String) (r : Item) → HasAttempts (after_failure now n error r)
unfolding after_failure
after_failure-HasAttempts now n error r = ground arith

insert_new-IsLive :
    (rowid now now' : ℕ) (payload : Json) (key : Option String) (rows : List Item)
    → IsLive rows
    → IsLive (insert_new rowid now now' payload key rows)
unfolding insert_new
insert_new-IsLive rowid now now' payload none rows h = h
insert_new-IsLive rowid now now' payload (some e) rows h =
    elim (Option-cases (find (by_event e) rows)) [
      | inl new ↦ rw (new, insert_new) (All-append HasAttempts rows _ h (λ p. omega arith, tt))
      | inr (old, there) ↦ rw (there, insert_new) h
    ]

pub enqueue-IsLive :
    (rowid now now' : ℕ) (payload : Json) (rows : List Item) {rows' : List Item}
    → enqueue rowid now now' payload rows ≡ ok rows'
    → IsLive rows
    → IsLive rows'
unfolding enqueue
enqueue-IsLive rowid now now' payload rows e h =
    let (key, _, q) = >>=-eq-ok (event_key payload) _ e in
    subst IsLive (ok_injective q) (insert_new-IsLive rowid now now' payload key rows h)

pub mark_done-IsLive : (e : String) (rows : List Item) → IsLive rows → IsLive (mark_done e rows)
unfolding mark_done
mark_done-IsLive e rows h = All-delete HasAttempts (by_event e) rows h

pub mark_failed-IsLive :
    (now : ℕ) (e error : String) (rows : List Item)
    → IsLive rows
    → IsLive (mark_failed now e error rows)
unfolding mark_failed
mark_failed-IsLive now e error rows h = elim (Option-cases (find (by_event e) rows)) [
  | inl gone ↦ rw (gone, mark_failed) h
  | inr (row, there) ↦
      rw (there, mark_failed)
        (All-update HasAttempts (by_event e) _ rows
          (λ r _ _. after_failure-HasAttempts now (row.attempts + 1) error r) h)
]

pub mark_dead-IsLive :
    (e error : String) (rows : List Item) → IsLive rows → IsLive (mark_dead e error rows)
unfolding mark_dead
mark_dead-IsLive e error rows h =
    All-update HasAttempts (by_event e) (killed error) rows (λ r _ _ p. cc) h

insert_new_idem :
    (rowid rowid' t t' u u' : ℕ) (payload again : Json) (key : Option String) (rows : List Item)
    → let once = insert_new rowid t t' payload key rows in
      insert_new rowid' u u' again key once ≡ once
unfolding insert_new
insert_new_idem rowid rowid' t t' u u' payload again none rows = refl
insert_new_idem rowid rowid' t t' u u' payload again (some e) rows =
    elim (Option-cases (find (by_event e) rows)) [
      | inl new ↦
          rw (new, insert_new)
            (rw
              (find-append_none (by_event e) rows (fresh_item rowid t t' e payload) new, insert_new)
              (rw eq_refl (rw (new, insert_new))))
      | inr (old, there) ↦ rw (there, insert_new) (rw (there, insert_new, there))
    ]

-- A second enqueue of an event changes nothing, whatever its payload, row id and times are.
pub enqueue_idem :
    (rowid rowid' t t' u u' : ℕ) (payload again : Json) (rows : List Item) {rows' : List Item}
    → event_key payload ≡ event_key again
    → enqueue rowid t t' payload rows ≡ ok rows'
    → enqueue rowid' u u' again rows' ≡ ok rows'
unfolding enqueue
enqueue_idem rowid rowid' t t' u u' payload again rows {rows'} same h =
    let (key, found, q) = >>=-eq-ok (event_key payload) _ h in
    rw (← same, found)
      (subst
        (λ l. ◌≡◌ {A = Result Error (List Item)} (ok (insert_new rowid' u u' again key l)) (ok l))
        (ok_injective q) (ap ok (insert_new_idem rowid rowid' t t' u u' payload again key rows)))
