-- ===== src/Central/Queue/Retry.antt =====
-- Retries: the backoff, how an event goes through its attempts to `dead`, and which operations
-- keep an event in the queue.
use snapshot_drive.Prelude.{
  ℕ, zero, suc, ◌+◌, ◌-◌, ◌≤◌, String, ◌≡◌, refl, ◌∙◌, some, List, arith, ltb, if◌then◌else◌, min,
  length, ◌≢◌, leb, true, is_some, false, Option-cases, eq_iff, inl, inr, ◌∷◌, [],
}
use snapshot_drive.Central.Queue.{
  backoff_seconds, after_failure, mark_failed, Item, by_event, State, mark_dead, mark_done,
  max_attempts, dead, pending, killed,
}
use snapshot_drive.Prelude.Table.{
  find, find-update, find_sound, find-update_ne, is_some-find-update, find-delete_ne,
}

backoff_closed :
    (n : ℕ)
    → backoff_seconds n ≡ (
        if ltb n 1
        then 0
        else if ltb n 2
        then 60
        else if ltb n 3
        then 300
        else if ltb n 4
        then 900
        else if ltb n 5
        then 3600
        else if ltb n 6
        then 21600
        else 86400)
unfolding backoff_seconds
backoff_closed zero = refl
backoff_closed (suc zero) = refl
backoff_closed (suc (suc zero)) = refl
backoff_closed (suc (suc (suc zero))) = refl
backoff_closed (suc (suc (suc (suc zero)))) = refl
backoff_closed (suc (suc (suc (suc (suc zero))))) = refl
backoff_closed (suc (suc (suc (suc (suc (suc n)))))) =
    let capped : min (suc (suc (suc (suc (suc (suc n))))) - 1) 5 ≡ 5 = omega arith in
    rw capped (ground arith)

-- The wait never shrinks from one attempt to the next, lies between a minute and a day from the
-- first attempt on, and stays a day from the sixth.
pub backoff_seconds_lem :
    (m n : ℕ)
    → m ≤ n
    → (backoff_seconds m ≤ backoff_seconds n)
      × (1 ≤ n → 60 ≤ backoff_seconds n)
      × (backoff_seconds n ≤ 86400)
      × (6 ≤ n → backoff_seconds n ≡ 86400)
backoff_seconds_lem m n h =
    rw (backoff_closed m, backoff_closed n) (ground arith, ground arith, ground arith, ground arith)

module _ (e : String) where
  by_event-after_failure :
      (j : String) (now n : ℕ) (error : String) (r : Item)
      → by_event j (after_failure now n error r) ≡ by_event j r
  unfolding after_failure
  by_event-after_failure j now n error r = ground arith

  -- What mark_failed makes of the row of its event.
  pub find-mark_failed :
      (now : ℕ) (error : String) (rows : List Item) {r : Item}
      → find (by_event e) rows ≡ some r
      → find (by_event e) (mark_failed now e error rows)
        ≡ some (after_failure now (r.attempts + 1) error r)
  unfolding mark_failed
  find-mark_failed now error rows {r} h =
      rw (h, mark_failed)
        (find-update (by_event e) (by_event e) _ rows
            (by_event-after_failure e now (r.attempts + 1) error)
          ∙ rw h (rw (find_sound (by_event e) rows h)))

-- Failed attempts at the event, each with its clock reading and its error text.
unfoldable pub fail_all : String → List (ℕ × String) → List Item → List Item
fail_all e [] rows = rows
fail_all e ((now, error) ∷ fs) rows = fail_all e fs (mark_failed now e error rows)

-- The state that goes with a number of failed attempts.
abbrev pub state_after : ℕ → State
state_after n = if leb max_attempts n then dead else pending

after_failure_parts :
    (now n : ℕ) (error : String) (r : Item)
    → ((after_failure now n error r).attempts ≡ n)
      × ((after_failure now n error r).state ≡ state_after n)
unfolding after_failure
after_failure_parts now n error r = ground arith

-- An event that failed as often as its attempts say has, after any further failures, been
-- counted exactly: it is still there, and it is dead exactly from the twentieth failure on.
pub fail_all_lem :
    (e : String) (fs : List (ℕ × String)) (rows : List Item) {r : Item}
    → find (by_event e) rows ≡ some r
    → r.state ≡ state_after r.attempts
    → (r' : Item) × (find (by_event e) (fail_all e fs rows) ≡ some r')
      × (r'.attempts ≡ r.attempts + length fs)
      × (r'.state ≡ state_after r'.attempts)
unfolding fail_all
fail_all_lem e [] rows {r} h s = (r, h, omega arith, s)
fail_all_lem e ((now, error) ∷ fs) rows {r} h s =
    let (counted, state) = after_failure_parts now (r.attempts + 1) error r in
    let (r', found, attempts, last) =
      fail_all_lem e fs (mark_failed now e error rows) (find-mark_failed e now error rows h)
        (rw counted state) in
    (r', found, rw attempts (omega arith), last)

apart : (e j : String) → j ≢ e → (r : Item) → by_event j r ≡ true → by_event e r ≡ false
apart e j h r p = ground (arith, eq_iff r.event_id j, eq_iff r.event_id e)

-- An operation on one event leaves every other event as it was.
pub mark_isolated :
    (e j : String) (now : ℕ) (error : String) (rows : List Item)
    → j ≢ e
    → (find (by_event j) (mark_failed now e error rows) ≡ find (by_event j) rows)
      × (find (by_event j) (mark_dead e error rows) ≡ find (by_event j) rows)
      × (find (by_event j) (mark_done e rows) ≡ find (by_event j) rows)
unfolding mark_failed mark_dead mark_done
mark_isolated e j now error rows h = (
  elim (Option-cases (find (by_event e) rows)) [
    | inl gone ↦ rw (gone, mark_failed)
    | inr (row, there) ↦
        rw (there, mark_failed)
          (find-update_ne (by_event j) (by_event e) _ rows
            (by_event-after_failure e j now (row.attempts + 1) error) (apart e j h))
  ],
  find-update_ne (by_event j) (by_event e) (killed error) rows (λ r. refl) (apart e j h),
  find-delete_ne (by_event j) (by_event e) rows (apart e j h),
)

-- Neither a failed attempt nor a rejection takes any event out of the queue.
pub is_some-mark :
    (e j : String) (now : ℕ) (error : String) (rows : List Item)
    → (is_some (find (by_event j) (mark_failed now e error rows))
        ≡ is_some (find (by_event j) rows))
      × (is_some (find (by_event j) (mark_dead e error rows)) ≡ is_some (find (by_event j) rows))
unfolding mark_failed mark_dead
is_some-mark e j now error rows = (
  elim (Option-cases (find (by_event e) rows)) [
    | inl gone ↦ rw (gone, mark_failed)
    | inr (row, there) ↦
        rw (there, mark_failed)
          (is_some-find-update (by_event j) (by_event e) _ rows
            (by_event-after_failure e j now (row.attempts + 1) error))
  ],
  is_some-find-update (by_event j) (by_event e) (killed error) rows (λ r. refl),
)
