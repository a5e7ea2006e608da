-- ===== src/Services/Scheduler/Calendar/Patterns.antt =====
-- backend/services/scheduler.py: the regular expressions for times and calendar expressions.
use snapshot_drive.Prelude.{ℕ, ◌+◌, ◌-◌, ◌*◌, Bool, Option, none, some, List, [], ◌∷◌, is_some}
use snapshot_drive.Prelude.Chars.{Chars, chars}
use snapshot_drive.Prelude.Chars.Scan.{
  ◌>>=◌, ◌>>◌, literal, blanks, digit_pair, short_number, ended,
}

abbrev pub weekday_names : List Chars
weekday_names =
    chars "Mon"
    ∷ chars "Tue"
    ∷ chars "Wed"
    ∷ chars "Thu"
    ∷ chars "Fri"
    ∷ chars "Sat"
    ∷ chars "Sun"
    ∷ []

-- the pattern `^(\d{1,2}):(\d{2})$`
unfoldable pub hour_and_minute : Chars → Option (ℕ × ℕ)
hour_and_minute s = do
  (h, r) ← short_number s
  r' ← literal (chars ":") r
  (a, b, rest) ← digit_pair r'
  ended rest
  some (h, 10 * (a - 48) + (b - 48))

-- `(\d{2}):(\d{2}):00` to the end
unfoldable pub clock : Chars → Option Chars
clock s = do
  (a, b, r) ← digit_pair s
  r' ← literal (chars ":") r
  (c, d, r'') ← digit_pair r'
  rest ← literal (chars ":00") r''
  ended rest
  some (a ∷ b ∷ b':' ∷ c ∷ d ∷ [])

-- `\*-\*-\*\s+` in front of a clock
unfoldable pub daily_time : Chars → Option Chars
unfolding clock
daily_time s = do r ← literal (chars "*-*-*") s; r' ← blanks r; clock r'

unfoldable pub hourly_pattern : Chars → Bool
hourly_pattern s = is_some (do
  r ← literal (chars "*-*-*") s
  r' ← blanks r
  rest ← literal (chars "*:00:00") r'
  ended rest)

-- one of the names, `\s+`, and a daily time
unfoldable pub weekly_time : List Chars → Chars → Option (Chars × Chars)
weekly_time [] s = none
weekly_time (name ∷ names) s =
    let later = weekly_time names s in
    elim (literal name s) [
      | none ↦ later
      | some r ↦ do r' ← blanks r; t ← daily_time r'; some (name, t)
    ]

unfoldable pub monthly_time : Chars → Option (ℕ × Chars)
unfolding clock
monthly_time s = do
  r ← literal (chars "*-*-") s
  (a, b, r') ← digit_pair r
  r'' ← blanks r'
  t ← clock r''
  some (10 * (a - 48) + (b - 48), t)
