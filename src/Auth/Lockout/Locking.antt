-- ===== src/Auth/Lockout/Locking.antt =====
-- When an account gets locked, for how long, and that a success unlocks it.
use snapshot_drive.Prelude.{
  ℕ, zero, suc, ◌+◌, ◌-◌, ◌*◌, ◌≤◌, ◌<◌, ◌≡◌, refl, ◌∙◌, ◌≢◌, true, false, some, List, [], ◌∷◌,
  arith, ltb, leb, length, ◌^◌, ap, sym,
}
use native.Mathlib.Nat.{pow-suc}
use snapshot_drive.Auth.Rows.{User, user_with}
use snapshot_drive.Auth.Lockout.{
  lock_minutes, after_failure, record_failure, is_locked, record_success, after_success, is_after,
}
use snapshot_drive.Prelude.Table.{find, find-update, find_sound, update, find-update_ne}

pow-pos : (n : ℕ) → 1 ≤ 2 ^ n
pow-pos zero = omega arith
pow-pos (suc n) = simp pow-suc (omega (arith, pow-pos n))

pow_mono : (m n : ℕ) → m ≤ n → 2 ^ m ≤ 2 ^ n
pow_mono zero n h = pow-pos n
pow_mono (suc m) zero h = absurd (omega arith)
pow_mono (suc m) (suc n) h = simp pow-suc (omega (arith, pow_mono m n (omega arith)))

-- A lock lasts at least 15 minutes and at most a day, never less than an earlier lock, and exactly
-- a day from the eighth lock on.
pub lock_minutes_lem :
    (k n : ℕ)
    → k ≤ n
    → (15 ≤ lock_minutes n)
      × (lock_minutes n ≤ 1440)
      × (lock_minutes k ≤ lock_minutes n)
      × (8 ≤ n → lock_minutes n ≡ 1440)
unfolding lock_minutes
lock_minutes_lem k n h =
    let pos = pow-pos (n - 1) in
    let mono = pow_mono (k - 1) (n - 1) (omega arith) in
    (
      omega arith,
      omega arith,
      omega arith,
      λ late. let many = pow_mono 7 (n - 1) (omega arith) in omega arith,
    )

user_with-after_failure :
    (i now now' attempts locks : ℕ) (u : User)
    → user_with i (after_failure now now' attempts locks u) ≡ user_with i u
unfolding after_failure
user_with-after_failure i now now' attempts locks u = ground arith

pub find-record_failure :
    (now now' i : ℕ) (users : List User) {u : User}
    → find (user_with i) users ≡ some u
    → find (user_with i) (record_failure now now' i users)
      ≡ some (after_failure now now' u.failed_attempts u.lock_count u)
unfolding record_failure
find-record_failure now now' i users {u} there =
    rw (there, record_failure)
      (find-update (user_with i) (user_with i) _ users
          (user_with-after_failure i now now' u.failed_attempts u.lock_count)
        ∙ rw there (rw (find_sound (user_with i) users there)))

-- Failed logins of one user, each with its two clock readings.
unfoldable pub fail_all : ℕ → List (ℕ × ℕ) → List User → List User
fail_all i [] users = users
fail_all i ((now, now') ∷ fs) users = fail_all i fs (record_failure now now' i users)

after_failure_few :
    (now now' : ℕ) (u : User)
    → u.failed_attempts + 1 < 5
    → let v = after_failure now now' u.failed_attempts u.lock_count u in
      (v.failed_attempts ≡ u.failed_attempts + 1)
      × (v.locked_until ≡ u.locked_until)
      × (v.lock_count ≡ u.lock_count)
unfolding after_failure
after_failure_few now now' u few = ground arith

is_locked_found :
    (t i : ℕ) (users : List User) {u : User}
    → find (user_with i) users ≡ some u
    → is_locked t i users ≡ is_after t u.locked_until
unfolding is_locked
is_locked_found t i users there = rw (there, is_locked)

record_failure_few :
    (now now' i t : ℕ) (users : List User) {u : User}
    → find (user_with i) users ≡ some u
    → u.failed_attempts + 1 < 5
    → is_locked t i (record_failure now now' i users) ≡ is_locked t i users
record_failure_few now now' i t users {u} there few =
    is_locked_found t i _ (find-record_failure now now' i users there)
    ∙ ap (is_after t) (after_failure_few now now' u few).1
    ∙ sym (is_locked_found t i users there)

-- Fewer failures than are left until the fifth only count: the account is locked exactly when it
-- was before, at any time.
pub fail_all_counts :
    (i t : ℕ) (fs : List (ℕ × ℕ)) (users : List User) {u : User}
    → find (user_with i) users ≡ some u
    → u.failed_attempts + length fs < 5
    → is_locked t i (fail_all i fs users) ≡ is_locked t i users
unfolding fail_all
fail_all_counts i t [] users there few = refl
fail_all_counts i t ((now, now') ∷ fs) users {u} there few =
    let counted = (after_failure_few now now' u (omega arith)).0 in
    fail_all_counts i t fs (record_failure now now' i users)
      (find-record_failure now now' i users there) (omega arith)
    ∙ record_failure_few now now' i t users there (omega arith)

-- how long the lock lasts, by the locks before it
lock_minutes_doubling :
    (locks : ℕ)
    → (locks ≤ 6 → lock_minutes (locks + 1) ≡ 15 * 2 ^ locks)
      × (7 ≤ locks → lock_minutes (locks + 1) ≡ 1440)
unfolding lock_minutes
lock_minutes_doubling locks =
    let same : locks + 1 - 1 ≡ locks = omega arith in
    (
      λ few. let most = pow_mono locks 6 few in rw same (omega arith),
      λ many. let least = pow_mono 7 locks many in rw same (omega arith),
    )

fail_all_row :
    (i : ℕ) (fs : List (ℕ × ℕ)) (users : List User) {u : User}
    → find (user_with i) users ≡ some u
    → u.failed_attempts + length fs < 5
    → (v : User) × (find (user_with i) (fail_all i fs users) ≡ some v)
      × (v.failed_attempts ≡ u.failed_attempts + length fs)
      × (v.lock_count ≡ u.lock_count)
unfolding fail_all
fail_all_row i [] users {u} there few = (u, there, omega arith, refl)
fail_all_row i ((now, now') ∷ fs) users {u} there few =
    let (counted, until, locks) = after_failure_few now now' u (omega arith) in
    let (v, found, attempts, same) =
      fail_all_row i fs (record_failure now now' i users)
        (find-record_failure now now' i users there) (omega arith) in
    (v, found, omega arith, same ∙ locks)

-- Of five failures in a row, with those that the row counts already, the first four lock nothing:
-- the account is locked exactly when it was before, at any time. The fifth locks it from its first
-- clock reading on, for 15 minutes times 2 to the number of locks before it, and for 1440 minutes
-- from the eighth lock on; it starts the count of failures again and raises the count of locks.
pub record_failure_locks :
    (now now' i t : ℕ) (fs : List (ℕ × ℕ)) (users : List User) {u : User}
    → find (user_with i) users ≡ some u
    → u.failed_attempts + length fs ≡ 4
    → let before = fail_all i fs users in
      let after = record_failure now now' i before in
      (is_locked t i before ≡ is_locked t i users)
      × (v : User) × (find (user_with i) after ≡ some v)
      × (v.failed_attempts ≡ 0)
      × (v.lock_count ≡ u.lock_count + 1)
      × (minutes : ℕ) × (is_locked t i after ≡ ltb t (now + minutes * 60000000))
      × (u.lock_count ≤ 6 → minutes ≡ 15 * 2 ^ u.lock_count)
      × (7 ≤ u.lock_count → minutes ≡ 1440)
unfolding after_failure
record_failure_locks now now' i t fs users {u} there fifth =
    let (b, found, attempts, locks) = fail_all_row i fs users there (omega arith) in
    let fifth' : leb 5 (b.failed_attempts + 1) ≡ true = ground arith in
    let after = find-record_failure now now' i (fail_all i fs users) found in
    let (doubles, day) = lock_minutes_doubling u.lock_count in
    (
      fail_all_counts i t fs users there (omega arith),
      after_failure now now' b.failed_attempts b.lock_count b,
      after,
      rw fifth' refl,
      rw fifth' (ap (λ n. n + 1) locks),
      lock_minutes (u.lock_count + 1),
      is_locked_found t i _ after
          ∙ rw fifth' (ap (λ n. ltb t (now + lock_minutes (n + 1) * 60000000)) locks),
      doubles,
      day,
    )

-- After a successful login the account is not locked at any time, and the next lock is a first one
-- again; nobody else's row is touched.
pub record_success_unlocks :
    (now now' i j t : ℕ) (users : List User) {u : User}
    → find (user_with i) users ≡ some u
    → (is_locked t i (record_success now now' i users) ≡ false)
      × (find (user_with i) (record_success now now' i users) ≡ some (after_success now now' u))
      × (j ≢ i → find (user_with j) (record_success now now' i users) ≡ find (user_with j) users)
unfolding record_success
record_success_unlocks now now' i j t users {u} there =
    let found : find (user_with i) (update (user_with i) (after_success now now') users)
        ≡ some (after_success now now' u) =
      find-update (user_with i) (user_with i) (after_success now now') users (λ v. refl)
      ∙ rw there (rw (find_sound (user_with i) users there)) in
    (
      is_locked_found t i _ found,
      found,
      λ other.
          find-update_ne (user_with j) (user_with i) (after_success now now') users (λ v. refl)
            (λ v h. ground arith),
    )
