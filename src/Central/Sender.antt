-- ===== src/Central/Sender.antt =====
-- backend/central/sender.py: sends the queued heartbeats to the central server.
use snapshot_drive.Prelude.{
  ℕ, ◌+◌, String, Bool, not, ◌&&◌, ◌||◌, Option, none, some, List, [], ◌∷◌, ◌++◌, ◌==◌,
  if◌then◌else◌, length, Result, ◌>>=◌, ok,
}
pub mod Delivery
use Prim.Native.String
use snapshot_drive.Prelude.Text.{prefix, decimal, is_empty}
use snapshot_drive.Prelude.Json.{Json}
use snapshot_drive.Central.Queue.{
  Item, mark_done, fetch_due, mark_dead, Error, mark_failed, enqueue, event_key,
}

-- What `requests.post` does: it answers, or it raises a RequestException with this text.
pub data Response : Type 0 where
  reply : ℕ → String → Response
  failed : String → Response

-- What the sender takes from outside: the configuration, and at the n-th request of a call the
-- server's response to a payload and the clock reading after it.
pub record World : Type 0 where
  pub central_url : String
  pub central_token : String
  pub post : ℕ → Json → Response
  pub clock : ℕ → ℕ

unfoldable pub enabled : World → Bool
enabled w = not (is_empty w.central_url) && not (is_empty w.central_token)

-- (status, text), with status 0 for a request that raised
unfoldable pub send_one : World → ℕ → Json → ℕ × String
send_one w n payload = elim (w.post n payload) [
  | reply status text ↦ (status, prefix 500 text)
  | failed error ↦ (0, prefix 500 error)
]

-- code in (400, 401, 403, 409, 410, 413)
unfoldable pub is_rejection : ℕ → Bool
is_rejection code =
    code == 400 || code == 401 || code == 403 || code == 409 || code == 410 || code == 413

-- f"{code}: {body[:200]}"
unfoldable pub error_text : ℕ → String → String
error_text code body = String.◌++◌ (decimal code) (String.◌++◌ ": " (prefix 200 body))

-- What an answer does to the event in the queue.
unfoldable pub settle : ℕ → String → ℕ → String → List Item → List Item
unfolding is_rejection error_text
settle now e code body rows =
    if code == 200
    then mark_done e rows
    else if is_rejection code
    then mark_dead e (error_text code body) rows
    else mark_failed now e (error_text code body) rows

-- The loop of drain over the items fetched; `n` counts the requests.
unfoldable pub drain_items : World → ℕ → List Item → List Item → List Item
unfolding settle send_one
drain_items w n [] rows = rows
drain_items w n (item ∷ items) rows =
    let (code, body) = send_one w n item.payload in
    drain_items w (n + 1) items (settle (w.clock n) item.event_id code body rows)

-- The queue afterwards, and how many items were tried.
unfoldable pub drain : World → ℕ → ℕ → List Item → List Item × ℕ
unfolding enabled drain_items
drain w now limit rows =
    if enabled w
    then (let items = fetch_due now limit rows in (drain_items w 0 items rows, length items))
    else (rows, 0)

-- The branches after the immediate attempt; a request that raised leaves the event as it is.
unfoldable pub settle_now : ℕ → String → ℕ → String → List Item → List Item
unfolding is_rejection error_text
settle_now now e code body rows =
    if code == 200
    then mark_done e rows
    else if is_rejection code
    then mark_dead e (error_text code body) rows
    else if code == 0
    then rows
    else mark_failed now e (error_text code body) rows

unfoldable pub attempt_now : World → Json → String → List Item → List Item × ℕ
unfolding settle_now send_one
attempt_now w payload e rows =
    let (code, body) = send_one w 0 payload in (settle_now (w.clock 0) e code body rows, code)

-- The key by which the settled row is found; NULL equals no row's event_id.
unfoldable pub attempt_key : World → Json → Option String → List Item → List Item × ℕ
unfolding attempt_now
attempt_key w payload (some e) rows = attempt_now w payload e rows
attempt_key w payload none rows = (rows, (send_one w 0 payload).0)

unfoldable pub send_now : World → ℕ → ℕ → ℕ → Json → List Item → Result Error (List Item × ℕ)
unfolding enabled attempt_key
send_now w rowid now now' payload rows = do
  rows' ← enqueue rowid now now' payload rows
  key ← event_key payload
  ok (if enabled w then attempt_key w payload key rows' else (rows', 0))
