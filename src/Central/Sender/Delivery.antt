-- ===== src/Central/Sender/Delivery.antt =====
-- What draining the queue does to each event, for any answers of the server.
use snapshot_drive.Prelude.{
  ℕ, ◌+◌, String, ◌≡◌, inl, inr, Bool, false, not, ◌&&◌, ◌||◌, none, List, [], ◌∷◌, arith, ◌==◌,
  Bool-cases, str_eq, eq_iff, is_some, ne_of_str_eq, ◌∙◌, refl, ok, if◌then◌else◌, min,
}
use snapshot_drive.Central.Sender.{
  World, settle, send_one, error_text, drain_items, drain, send_now, enabled, is_rejection,
  settle_now,
}
use snapshot_drive.Central.Queue.{Item, mark_done, by_event, fetch_due, enqueue, is_due}
use snapshot_drive.Prelude.Table.{find, find-delete_self, count}
use snapshot_drive.Central.Queue.Retry.{mark_isolated, is_some-mark}
use snapshot_drive.Central.Queue.Invariant.{
  IsLive, mark_done-IsLive, mark_dead-IsLive, mark_failed-IsLive,
}
use snapshot_drive.Prelude.Json.{Json}
use snapshot_drive.Central.Queue.Due.{length-fetch_due}

-- Some request for the event among the items is answered with 200; `n` counts the requests.
unfoldable pub accepted : World → ℕ → String → List Item → Bool
accepted w n j [] = false
accepted w n j (item ∷ items) =
    (str_eq item.event_id j && (send_one w n item.payload).0 == 200) || accepted w (n + 1) j items

pub is_some-settle :
    (now : ℕ) (e : String) (code : ℕ) (body j : String) (rows : List Item)
    → is_some (find (by_event j) (settle now e code body rows))
      ≡ (is_some (find (by_event j) rows) && not (str_eq e j && code == 200))
unfolding settle
is_some-settle now e code body j rows = elim (Bool-cases (str_eq e j)) [
  | inl same ↦ ground (arith, eq_iff e j, gone, is_some-mark e j now (error_text code body) rows)
  | inr other ↦ ground (
    arith,
    mark_isolated e j now (error_text code body) rows (ne_of_str_eq e j other),
    is_some-mark e j now (error_text code body) rows,
  )
]
  where
    gone : find (by_event j) (mark_done j rows) ≡ none
    gone = unfold mark_done in find-delete_self (by_event j) rows

is_some-drain_items :
    (w : World) (n : ℕ) (items : List Item) (j : String) (rows : List Item)
    → is_some (find (by_event j) (drain_items w n items rows))
      ≡ (is_some (find (by_event j) rows) && not (accepted w n j items))
unfolding drain_items accepted
is_some-drain_items w n [] j rows = ground arith
is_some-drain_items w n (item ∷ items) j rows =
    let (code, body) = send_one w n item.payload in
    let next = settle (w.clock n) item.event_id code body rows in
    ground (
      arith,
      is_some-drain_items w (n + 1) items j next,
      is_some-settle (w.clock n) item.event_id code body j rows,
    )

-- Draining takes an event out of the queue exactly when the sender is enabled and the server
-- answers 200 to one of the event's requests; whatever else happens, it stays.
pub is_some-drain :
    (w : World) (now limit : ℕ) (rows : List Item) (j : String)
    → is_some (find (by_event j) (drain w now limit rows).0) ≡ (
        is_some (find (by_event j) rows)
        && not (enabled w && accepted w 0 j (fetch_due now limit rows)))
unfolding drain
is_some-drain w now limit rows j =
    ground (arith, is_some-drain_items w 0 (fetch_due now limit rows) j rows)

settle-IsLive :
    (now : ℕ) (e : String) (code : ℕ) (body : String) (rows : List Item)
    → IsLive rows
    → IsLive (settle now e code body rows)
unfolding settle
settle-IsLive now e code body rows h = elim (Bool-cases (code == 200)) [
  | inl done ↦ rw done (mark_done-IsLive e rows h)
  | inr refused ↦ rw refused (elim (Bool-cases (is_rejection code)) [
    | inl final ↦ rw final (mark_dead-IsLive e _ rows h)
    | inr later ↦ rw later (mark_failed-IsLive now e _ rows h)
  ])
]

drain_items-IsLive :
    (w : World) (n : ℕ) (items rows : List Item) → IsLive rows → IsLive (drain_items w n items rows)
unfolding drain_items
drain_items-IsLive w n [] rows h = h
drain_items-IsLive w n (item ∷ items) rows h =
    let (code, body) = send_one w n item.payload in
    drain_items-IsLive w (n + 1) items _ (settle-IsLive (w.clock n) item.event_id code body rows h)

-- Draining keeps the invariant of the queue, and tries as many items as are due, up to the
-- limit, or none if the sender is not configured.
pub drain-IsLive :
    (w : World) (now limit : ℕ) (rows : List Item)
    → IsLive rows
    → IsLive (drain w now limit rows).0
      × ((drain w now limit rows).1
          ≡ (if enabled w then min limit (count (is_due now) rows) else 0))
unfolding drain
drain-IsLive w now limit rows h = elim (Bool-cases (enabled w)) [
  | inl live ↦
      rw live
        (drain_items-IsLive w 0 (fetch_due now limit rows) rows h, length-fetch_due now limit rows)
  | inr off ↦ rw off (h, refl)
]

find-settle_ne :
    (now : ℕ) (e : String) (code : ℕ) (body j : String) (rows : List Item)
    → str_eq e j ≡ false
    → find (by_event j) (settle now e code body rows) ≡ find (by_event j) rows
unfolding settle
find-settle_ne now e code body j rows other =
    ground (arith, mark_isolated e j now (error_text code body) rows (ne_of_str_eq e j other))

find-drain_items_ne :
    (w : World) (n : ℕ) (items : List Item) (j : String) (rows : List Item)
    → find (by_event j) items ≡ none
    → find (by_event j) (drain_items w n items rows) ≡ find (by_event j) rows
unfolding drain_items find
find-drain_items_ne w n [] j rows h = refl
find-drain_items_ne w n (item ∷ items) j rows h = elim (Bool-cases (str_eq item.event_id j)) [
  | inl same ↦ absurd (ground arith)
  | inr other ↦
      let (code, body) = send_one w n item.payload in
      find-drain_items_ne w (n + 1) items j _ (ground arith)
      ∙ find-settle_ne (w.clock n) item.event_id code body j rows other
]

-- Draining leaves an event that is not among the items fetched exactly as it is: its attempts,
-- its retry time and its state, so a dead event stays dead.
pub find-drain_ne :
    (w : World) (now limit : ℕ) (rows : List Item) (j : String)
    → find (by_event j) (fetch_due now limit rows) ≡ none
    → find (by_event j) (drain w now limit rows).0 ≡ find (by_event j) rows
unfolding drain
find-drain_ne w now limit rows j h =
    ground (arith, find-drain_items_ne w 0 (fetch_due now limit rows) j rows h)

-- An immediate attempt while the server cannot be reached leaves the queue as enqueue left it,
-- so the event waits for the next drain with no attempt counted.
pub send_now_unreachable :
    (w : World) (rowid now now' : ℕ) (payload : Json) (rows : List Item) {rows' : List Item}
    → enqueue rowid now now' payload rows ≡ ok rows'
    → (send_one w 0 payload).0 ≡ 0
    → send_now w rowid now now' payload rows ≡ ok (rows', 0)
unfolding send_now enqueue settle_now
send_now_unreachable w rowid now now' payload rows h down = ground arith
