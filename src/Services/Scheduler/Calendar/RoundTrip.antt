-- ===== src/Services/Scheduler/Calendar/RoundTrip.antt =====
-- What `build_oncalendar` writes, `parse_oncalendar` reads back.
use snapshot_drive.Prelude.{
  require-true, ℕ, ◌<◌, ◌≡◌, refl, sym, subst, true, ◌&&◌, [], ◌∷◌, ◌++◌, arith, leb, if◌then◌else◌,
  Bool-cases, inl, inr, Result, ok, >>=-eq-ok, ok_injective, ◌⊎◌,
}
use snapshot_drive.Prelude.Chars.Spans.{one_of-All}
use snapshot_drive.Prelude.Chars.{
  Chars, chars, same, one_of, same_iff, lower, strip, rstrip, lstrip, or_else, two_digits,
}
use snapshot_drive.Prelude.Chars.Scan.{literal, blanks}
use snapshot_drive.Services.Scheduler.Calendar.Patterns.{weekday_names, hourly_pattern}
use snapshot_drive.Services.Scheduler.Calendar.{
  Preset, ScheduleError, parse_hhmm, show_time, at_time, build_kind, build_oncalendar, preset_of,
  parse_oncalendar,
}
use snapshot_drive.Services.Scheduler.Calendar.Forms.{
  Shows, shows, parse_daily, parse_monthly, IsWeekly, weekday_names-IsWeekly,
}

parse_hhmm_bounds : (s : Chars) {h mi : ℕ} → parse_hhmm s ≡ ok (h, mi) → (h < 24) × (mi < 60)
unfolding parse_hhmm
parse_hhmm_bounds s = ground arith

-- The fields that a form of kind `k` asks for, with the time that its text stands for.
abbrev pub Asks : Chars → Chars → Chars → ℕ → Preset → Type 0
Asks k time weekday day p =
    (p.kind ≡ k)
    × (p.weekday ≡ (if same k (chars "weekly") then weekday else chars "Mon"))
    × (p.day ≡ (if same k (chars "monthly") then day else 1))
    × (((k ≡ chars "hourly") × (p.time ≡ []))
        ⊎ ((h : ℕ) × (mi : ℕ) × (parse_hhmm (or_else time (chars "03:00")) ≡ ok (h, mi))
            × (p.time ≡ show_time h mi)))

at_time-eq-ok :
    (days time : Chars) {expr : Chars}
    → at_time days time ≡ ok expr
    → (h : ℕ) × (mi : ℕ) × (parse_hhmm (or_else time (chars "03:00")) ≡ ok (h, mi))
      × (h < 24)
      × (mi < 60)
      × (expr ≡ days ++ (b' ' ∷ (show_time h mi ++ chars ":00")))
unfolding at_time
at_time-eq-ok days time e =
    let (t, read, rest) = >>=-eq-ok _ _ e in
    let (small, less) = parse_hhmm_bounds _ read in
    (t.0, t.1, read, small, less, sym (ok_injective rest))

-- The expression has no blanks at its ends and reads as the preset that was asked for.
pub record Reads (k time weekday : Chars) (day : ℕ) (expr : Chars) : Type 0 where
  pub bare : strip expr ≡ expr
  pub asks : Asks k time weekday day (parse_oncalendar expr)

Reads-Shows :
    (k time weekday : Chars) (day : ℕ) {p : Preset} {expr shown : Chars}
    → expr ≡ shown
    → Shows shown p
    → Asks k time weekday day p
    → Reads k time weekday day expr
Reads-Shows k time weekday day same_text s asked =
    subst (Reads k time weekday day) (sym same_text)
      (record { bare = s.bare; asks = subst (Asks k time weekday day) (sym s.read) asked })

module _ (time weekday : Chars) (day : ℕ) {expr : Chars} where
  daily-Reads : at_time (chars "*-*-*") time ≡ ok expr → Reads (chars "daily") time weekday day expr
  unfolding same
  daily-Reads e =
      let (h, mi, read, small, less, shape) = at_time-eq-ok (chars "*-*-*") time e in
      Reads-Shows (chars "daily") time weekday day shape (parse_daily h mi small less)
        (refl, refl, refl, inr (h, mi, read, refl))

  weekly-Reads :
      one_of weekday weekday_names ≡ true
      → at_time (weekday ++ chars " *-*-*") time ≡ ok expr
      → Reads (chars "weekly") time weekday day expr
  unfolding same
  weekly-Reads named e =
      let (h, mi, read, small, less, shape) = at_time-eq-ok (weekday ++ chars " *-*-*") time e in
      let day_names = weekday_names-IsWeekly h mi small less in
      Reads-Shows (chars "weekly") time weekday day shape
        (one_of-All (IsWeekly h mi small less) weekday _ day_names named)
        (refl, refl, refl, inr (h, mi, read, refl))

  monthly-Reads :
      (leb 1 day && leb day 31) ≡ true
      → at_time (chars "*-*-" ++ two_digits day) time ≡ ok expr
      → Reads (chars "monthly") time weekday day expr
  unfolding same
  monthly-Reads range e =
      let (h, mi, read, small, less, shape) =
        at_time-eq-ok (chars "*-*-" ++ two_digits day) time e in
      Reads-Shows (chars "monthly") time weekday day shape
        (parse_monthly h mi small less day (ground arith))
        (refl, refl, refl, inr (h, mi, read, refl))

  hourly-Reads :
      ◌≡◌ {A = Result ScheduleError Chars} (ok (chars "*-*-* *:00:00")) (ok expr)
      → Reads (chars "hourly") time weekday day expr
  unfolding preset_of same hourly_pattern literal blanks strip lstrip rstrip
  hourly-Reads e =
      Reads-Shows (chars "hourly") time weekday day (sym (ok_injective e))
        (shows (chars "*-*-* *:00:00") refl refl) (refl, refl, refl, inl (refl, refl))

build_kind-Reads :
    (k time weekday : Chars) (day : ℕ) {expr : Chars}
    → build_kind k time weekday day ≡ ok expr
    → Reads k time weekday day expr
unfolding build_kind
build_kind-Reads k time weekday day {expr} e = elim (Bool-cases (same k (chars "hourly"))) [
  | inl is ↦
      subst (λ j. Reads j time weekday day expr) (sym ((same_iff k _).0 is))
        (hourly-Reads time weekday day (rw is at e))
  | inr not_hourly ↦ elim (Bool-cases (same k (chars "daily"))) [
    | inl is ↦
        subst (λ j. Reads j time weekday day expr) (sym ((same_iff k _).0 is))
          (daily-Reads time weekday day (rw (not_hourly, is) at e))
    | inr not_daily ↦ elim (Bool-cases (same k (chars "weekly"))) [
      | inl is ↦
          let (passed, named, rest) = >>=-eq-ok _ _ (rw (not_hourly, not_daily, is) at e) in
          subst (λ j. Reads j time weekday day expr) (sym ((same_iff k _).0 is))
            (weekly-Reads time weekday day (require-true _ _ named) rest)
      | inr not_weekly ↦ elim (Bool-cases (same k (chars "monthly"))) [
        | inl is ↦
            let (passed, range, rest) =
              >>=-eq-ok _ _ (rw (not_hourly, not_daily, not_weekly, is) at e) in
            subst (λ j. Reads j time weekday day expr) (sym ((same_iff k _).0 is))
              (monthly-Reads time weekday day (require-true _ _ range) rest)
        | inr other ↦ let refused = rw (not_hourly, not_daily, not_weekly, other) at e in cc
      ]
    ]
  ]
]

-- Whatever the form asks for, if an expression is built from it, the expression reads back as
-- the kind that was asked for in small letters (daily if none was given), the weekday of a
-- weekly schedule and the day of a monthly one (Mon and 1 for the others), and the time in two
-- digits each (none for an hourly schedule, 03:00 if none was given).
pub parse_oncalendar-build_oncalendar :
    (kind time weekday : Chars) (day : ℕ) {expr : Chars}
    → build_oncalendar kind time weekday day ≡ ok expr
    → Asks (lower (or_else kind (chars "daily"))) time weekday day (parse_oncalendar expr)
unfolding build_oncalendar
parse_oncalendar-build_oncalendar kind time weekday day e =
    (build_kind-Reads (lower (or_else kind (chars "daily"))) time weekday day e).asks

pub build_oncalendar-bare :
    (kind time weekday : Chars) (day : ℕ) {expr : Chars}
    → build_oncalendar kind time weekday day ≡ ok expr
    → strip expr ≡ expr
unfolding build_oncalendar
build_oncalendar-bare kind time weekday day e =
    (build_kind-Reads (lower (or_else kind (chars "daily"))) time weekday day e).bare
