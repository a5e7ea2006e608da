-- ===== src/Central/Queue.antt =====
-- backend/central/queue.py: the local queue of heartbeats that wait for the central server. A
-- timestamp is the number of microseconds since the epoch, in the order of its ISO text.
pub mod Invariant
pub mod Due
pub mod Retry
use snapshot_drive.Prelude.{
  ℕ, zero, suc, ◌+◌, ◌-◌, ◌*◌, min, String, Bool, true, false, ◌&&◌, Option, none, some, List, [],
  ◌∷◌, ◌++◌, str_eq, leb, ltb, if◌then◌else◌, Result, ok, err, take, ◌>>=◌, length, ◌==◌,
}
use snapshot_drive.Prelude.Table.{find, select, update, delete, count}
use snapshot_drive.Prelude.Text.{prefix}
use snapshot_drive.Prelude.Json.{Json}
use snapshot_drive.Prelude.Json
use snapshot_drive.Central.Report.{bind_text}
use snapshot_drive.Prelude.Sort.{sort_by, upwards}

abbrev pub max_attempts : ℕ
max_attempts = 20

-- 1m, 5m, 15m, 1h, 6h, 24h
abbrev pub backoff_ladder : List ℕ
backoff_ladder = 60 ∷ 300 ∷ 900 ∷ 3600 ∷ 21600 ∷ 86400 ∷ []

-- a list at an index that its caller keeps in range
abbrev at_index : List ℕ → ℕ → ℕ
at_index [] i = 0
at_index (x ∷ xs) zero = x
at_index (x ∷ xs) (suc i) = at_index xs i

unfoldable pub backoff_seconds : ℕ → ℕ
backoff_seconds attempts =
    if ltb attempts 1
    then 0
    else at_index backoff_ladder (min (attempts - 1) (length backoff_ladder - 1))

pub data State : Type 0 where
  pending dead : State

abbrev pub is_pending : State → Bool
is_pending pending = true
is_pending dead = false

-- A row of the table central_queue.
pub record Item : Type 0 where
  pub id : ℕ
  pub event_id : String
  pub payload : Json
  pub enqueued_at : ℕ
  pub next_retry_ts : ℕ
  pub attempts : ℕ
  pub last_error : Option String
  pub state : State

abbrev pub by_event : String → Item → Bool
by_event e r = str_eq r.event_id e

pub data Error : Type 0 where
  key_error binding_error : Error

-- payload["event_id"] as it is bound to the statement; `none` is NULL
unfoldable pub event_key : Json → Result Error (Option String)
event_key payload = elim (Json.get "event_id" payload) [
  | none ↦ err key_error
  | some value ↦ elim (bind_text (some value)) [ ok key ↦ ok key | err _ ↦ err binding_error ]
]

abbrev pub fresh_item : ℕ → ℕ → ℕ → String → Json → Item
fresh_item rowid now now' e payload = record {
  id = rowid;
  event_id = e;
  payload = payload;
  enqueued_at = now;
  next_retry_ts = now';
  attempts = 0;
  last_error = none;
  state = pending;
}

-- The INSERT under its UNIQUE and NOT NULL constraints, whose IntegrityError is dropped.
unfoldable pub insert_new : ℕ → ℕ → ℕ → Json → Option String → List Item → List Item
insert_new rowid now now' payload none rows = rows
insert_new rowid now now' payload (some e) rows = elim (find (by_event e) rows) [
  | some old ↦ rows
  | none ↦ rows ++ fresh_item rowid now now' e payload ∷ []
]

-- `rowid` is the id that SQLite gives to a new row; `now` and `now'` are the two clock readings.
unfoldable pub enqueue : ℕ → ℕ → ℕ → Json → List Item → Result Error (List Item)
enqueue rowid now now' payload rows = do
  key ← event_key payload
  ok (insert_new rowid now now' payload key rows)

abbrev pub is_due : ℕ → Item → Bool
is_due now r = is_pending r.state && leb r.next_retry_ts now

-- ORDER BY next_retry_ts LIMIT limit
unfoldable pub fetch_due : ℕ → ℕ → List Item → List Item
fetch_due now limit rows =
    take limit (sort_by (upwards (λ r. r.next_retry_ts)) (select (is_due now) rows))

unfoldable pub mark_done : String → List Item → List Item
mark_done e = delete (by_event e)

-- The new values of the row whose attempts, with this one, are `n`.
unfoldable pub after_failure : ℕ → ℕ → String → Item → Item
after_failure now n error r =
    if leb max_attempts n
    then record r { attempts = n; last_error = some (prefix 500 error); state = dead }
    else record r {
      attempts = n;
      last_error = some (prefix 500 error);
      next_retry_ts = now + backoff_seconds n * 1000000;
      state = pending;
    }

unfoldable pub mark_failed : ℕ → String → String → List Item → List Item
mark_failed now e error rows = elim (find (by_event e) rows) [
  | none ↦ rows
  | some row ↦ update (by_event e) (after_failure now (row.attempts + 1) error) rows
]

abbrev pub killed : String → Item → Item
killed error r = record r { state = dead; last_error = some (prefix 500 error) }

unfoldable pub mark_dead : String → String → List Item → List Item
mark_dead e error = update (by_event e) (killed error)

-- A group of GROUP BY, which is there only if it has a row.
unfoldable pub group : State → ℕ → List (State × ℕ) → List (State × ℕ)
group s n rest = if n == 0 then rest else (s, n) ∷ rest

abbrev pub in_state : State → Item → Bool
in_state pending r = is_pending r.state
in_state dead r = if is_pending r.state then false else true

unfoldable pub stats : List Item → List (State × ℕ)
unfolding group
stats rows =
    group dead (count (in_state dead) rows) (group pending (count (in_state pending) rows) [])
