-- ===== src/Services/Scheduler/Calendar.antt =====
-- backend/services/scheduler.py: the calendar expressions of systemd, built from the fields of
-- the form and read back into them. A day below 0 is refused like one above 31.
pub mod Patterns
mod Forms
pub mod RoundTrip
use snapshot_drive.Prelude.{
  ℕ, ◌&&◌, ◌||◌, none, some, [], ◌∷◌, ◌++◌, leb, if◌then◌else◌, Result, ok, err, require, ◌>>=◌,
  ◌>>◌,
}
use snapshot_drive.Prelude.Chars.{Chars, chars, same, one_of, lower, strip, or_else, two_digits}
use snapshot_drive.Services.Scheduler.Calendar.Patterns.{
  weekday_names, hour_and_minute, daily_time, hourly_pattern, weekly_time, monthly_time,
}

-- the texts that `ScheduleError` is raised with
pub data ScheduleError : Type 0 where
  bad_time time_out_of_range bad_weekday bad_day bad_kind : ScheduleError
  empty_or_long bad_characters no_analyze analyze_timeout bad_calendar : ScheduleError
  bad_unit no_expression bad_delay reload_failed enable_failed restart_failed : ScheduleError
  no_conf not_an_integer retention_out_of_range no_values : ScheduleError

unfoldable pub parse_hhmm : Chars → Result ScheduleError (ℕ × ℕ)
unfolding hour_and_minute
parse_hhmm s = elim (hour_and_minute (strip s)) [
  | none ↦ err bad_time
  | some (h, mi) ↦ if leb h 23 && leb mi 59 then ok (h, mi) else err time_out_of_range
]

-- f"{h:02d}:{mi:02d}"
abbrev pub show_time : ℕ → ℕ → Chars
show_time h mi = two_digits h ++ (b':' ∷ two_digits mi)

-- f"{days} {h:02d}:{mi:02d}:00" at a time of the form
unfoldable pub at_time : Chars → Chars → Result ScheduleError Chars
at_time days time = do
  (h, mi) ← parse_hhmm (or_else time (chars "03:00"))
  ok (days ++ (b' ' ∷ (show_time h mi ++ chars ":00")))

-- the branches, on the kind in small letters
unfoldable pub build_kind : Chars → Chars → Chars → ℕ → Result ScheduleError Chars
unfolding at_time
build_kind k time weekday day =
    if same k (chars "hourly")
    then ok (chars "*-*-* *:00:00")
    else if same k (chars "daily")
    then at_time (chars "*-*-*") time
    else if same k (chars "weekly")
    then require (one_of weekday weekday_names) bad_weekday
      >> at_time (weekday ++ chars " *-*-*") time
    else if same k (chars "monthly")
    then require (leb 1 day && leb day 31) bad_day >> at_time (chars "*-*-" ++ two_digits day) time
    else err bad_kind

unfoldable pub build_oncalendar : Chars → Chars → Chars → ℕ → Result ScheduleError Chars
unfolding build_kind
build_oncalendar kind = build_kind (lower (or_else kind (chars "daily")))

-- the fields of the form that `parse_oncalendar` fills
pub record Preset : Type 0 where
  pub kind : Chars
  pub time : Chars
  pub weekday : Chars
  pub day : ℕ

abbrev pub custom : Preset
custom = record { kind = chars "custom"; time = []; weekday = chars "Mon"; day = 1 }

-- the patterns are tried in their order, on the stripped text
unfoldable pub preset_of : Chars → Preset
preset_of s =
    if hourly_pattern s || same s (chars "hourly")
    then record custom { kind = chars "hourly" }
    else elim (daily_time s) [
      | some t ↦ record custom { kind = chars "daily"; time = t }
      | none ↦ elim (weekly_time weekday_names s) [
        | some (name, t) ↦ record custom { kind = chars "weekly"; weekday = name; time = t }
        | none ↦ elim (monthly_time s) [
          | some (d, t) ↦ record custom { kind = chars "monthly"; day = d; time = t }
          | none ↦ custom
        ]
      ]
    ]

unfoldable pub parse_oncalendar : Chars → Preset
unfolding preset_of
parse_oncalendar expr = preset_of (strip expr)
