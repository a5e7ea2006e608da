-- ===== src/Services/Scheduler.antt =====
-- backend/services/scheduler.py: the schedule of a unit, asked from systemd and written as a
-- drop-in file. What systemctl does with its state, the answer of systemd-analyze and the files
-- that can be written are parameters; an exit status is a number, 0 for success.
pub mod Calendar
pub mod Dropin
pub mod Retention
pub mod Accepted
pub mod Shown
pub mod Written
use snapshot_drive.Prelude.{
  ℕ, Bool, true, false, not, ◌&&◌, ◌||◌, Option, none, List, [], ◌∷◌, ◌++◌, ◌==◌, ltb, length,
  if◌then◌else◌, Result, ok, err,
}
use snapshot_drive.Prelude.Chars.{
  Chars, chars, same, one_of, is_digit, is_upper, contains, lower, strip, or_else, split_lines,
}
use snapshot_drive.Prelude.Chars.Scan.{every, span}
use snapshot_drive.Services.Scheduler.Calendar.{
  ScheduleError, empty_or_long, bad_characters, no_analyze, analyze_timeout, bad_calendar, bad_unit,
  no_expression, bad_delay, reload_failed, enable_failed, restart_failed, Preset, build_oncalendar,
  parse_oncalendar,
}
use snapshot_drive.Services.ConfFile.{File, text}
use snapshot_drive.Services.Scheduler.Dropin.{
  default_delay, read_dropin, dropin_body, next_time, effective,
}

-- how a program that is run ends
pub data Run : Type 0 where
  finished : ℕ → Chars → Chars → Run
  timed_out not_found : Run

-- the exceptions: those of the module, a program that is not installed, a file that cannot be
-- written
pub data Raised : Type 0 where
  schedule : ScheduleError → Raised
  file_not_found os_error : Raised

pub record World (M : Type 0) : Type 0 where
  pub manager : M
  pub dropin : Chars → File

-- the machine: systemctl reads the files and changes the state of systemd
pub record Host (M : Type 0) : Type 0 where
  pub systemctl : World M → List Chars → M × Run
  pub analyze : Chars → Run
  pub writable : Chars → Bool

abbrev pub Act : Type 0 → Type 0 → Type 0
Act M A = World M → Result Raised A × World M

-- an exception ends the block, in the world that it left
unfoldable pub continue :
    {M A B : Type 0} → Result Raised A × World M → (A → Act M B) → Result Raised B × World M
continue (ok a, w) next = next a w
continue (err e, w) next = (err e, w)

infixl 5 ◌>>=◌ ◌>>◌
abbrev pub ◌>>=◌ : {M A B : Type 0} → Act M A → (A → Act M B) → Act M B
◌>>=◌ act next w = continue (act w) next

abbrev pub ◌>>◌ : {M B : Type 0} → Act M (Unit {0}) → Act M B → Act M B
◌>>◌ act next = ◌>>=◌ act (λ done. next)

abbrev pub returns : {M A : Type 0} → A → Act M A
returns a w = (ok a, w)

abbrev pub raises : {M A : Type 0} → Raised → Act M A
raises e w = (err e, w)

abbrev pub outcome : {M A : Type 0} → Result Raised A → Act M A
outcome result w = (result, w)

-- if not test: raise e
abbrev pub unless : {M : Type 0} → Bool → ScheduleError → Act M (Unit {0})
unless true e w = (ok tt, w)
unless false e w = (err (schedule e), w)

-- an exception of the module, raised further
abbrev pub raised_as : {A : Type 0} → Result ScheduleError A → Result Raised A
raised_as (ok a) = ok a
raised_as (err e) = err (schedule e)

abbrev pub supported_units : List Chars
supported_units = chars "archive" ∷ chars "create" ∷ chars "db-archive" ∷ chars "prune" ∷ []

-- `_DEFAULT_ONCALENDAR.get(unit, "*-*-* 03:00:00")`
unfoldable pub default_oncalendar : Chars → Chars
default_oncalendar unit =
    if same unit (chars "archive")
    then chars "*-*-01 02:00:00"
    else if same unit (chars "prune")
    then chars "*-*-* 04:00:00"
    else chars "*-*-* 03:00:00"

abbrev pub timer : Chars → Chars
timer unit = chars "snapshot@" ++ (unit ++ chars ".timer")

-- `[A-Za-z0-9 *,:/\-]`
abbrev pub is_calendar_code : ℕ → Bool
is_calendar_code c =
    is_digit c
    || is_upper c
    || (ltb 96 c && ltb c 123)
    || c == b' '
    || c == b'*'
    || c == b','
    || c == b':'
    || c == b'/'
    || c == b'-'

abbrev pub delay_units : List Chars
delay_units = chars "ms" ∷ chars "s" ∷ chars "min" ∷ chars "h" ∷ chars "d" ∷ []

-- `\d+(ms|s|min|h|d)?`
unfoldable pub is_delay : Chars → Bool
is_delay s =
    let (ds, rest) = span is_digit s in
    not (same ds []) && (same rest [] || one_of rest delay_units)

pub record Schedule : Type 0 where
  pub unit : Chars
  pub enabled : Bool
  pub preset : Preset
  pub oncalendar : Chars
  pub next_run : Option Chars

-- the body of the drop-in file, in its place
unfoldable pub put_dropin : {M : Type 0} → Chars → Chars → Chars → World M → World M
put_dropin unit oncalendar delay w = record w {
  dropin = λ u. if same u unit then text (dropin_body oncalendar delay) else w.dropin u;
}

-- the expression that a form asks for
unfoldable pub expression : Chars → Chars → Chars → ℕ → Chars → Result Raised Chars
expression kind time weekday day oncalendar =
    let typed = strip oncalendar in
    let day' = if day == 0 then 1 else day in
    if same kind (chars "custom")
    then (if same typed [] then err (schedule no_expression) else ok typed)
    else raised_as (build_oncalendar kind time weekday day')

-- what the caller of a program makes of its end
unfoldable pub answer : {M : Type 0} → Run → Act M (ℕ × Chars)
answer (finished rc out errors) w = (ok (rc, strip (out ++ errors)), w)
answer timed_out w = (ok (124, chars "systemctl timeout"), w)
answer not_found w = (err file_not_found, w)

-- what `validate_oncalendar` makes of the end of systemd-analyze
unfoldable pub judge : {M : Type 0} → Run → Act M (Unit {0})
judge (finished rc out errors) = unless (rc == 0) bad_calendar
judge timed_out = raises (schedule analyze_timeout)
judge not_found = raises (schedule no_analyze)

module _ {M : Type 0} (host : Host M) where
  unfoldable pub validate_oncalendar : Chars → Act M (Unit {0})
  unfolding judge
  validate_oncalendar expr = do
    unless (not (same expr []) && not (ltb 256 (length expr))) empty_or_long
    unless (every is_calendar_code expr) bad_characters
    judge (host.analyze expr)

  -- `_write_dropin`: the file is replaced as a whole, or not at all
  unfoldable pub write_dropin : Chars → Chars → Chars → Act M (Unit {0})
  unfolding put_dropin
  write_dropin unit oncalendar delay w =
      if host.writable unit then (ok tt, put_dropin unit oncalendar delay w) else (err os_error, w)

  -- `_systemctl`: a program that is not installed raises
  unfoldable pub systemctl : List Chars → Act M (ℕ × Chars)
  unfolding answer
  systemctl args w = let (m, run) = host.systemctl w args in answer run (record w { manager = m })

  -- `_next_run`
  unfoldable pub next_run : Chars → Act M (Option Chars)
  unfolding systemctl
  next_run unit = do
    (rc, out) ←
        systemctl (
          chars "show" ∷ timer unit ∷ chars "--property=NextElapseUSecRealtime,NextElapseUSec" ∷ [])
    returns (if rc == 0 then next_time (split_lines out) else none)

  -- `_read_effective_oncalendar`
  unfoldable pub read_effective : Chars → Act M Chars
  unfolding systemctl
  read_effective unit = do
    (rc, out) ← systemctl (chars "show" ∷ timer unit ∷ chars "--property=TimersCalendar" ∷ [])
    returns (if rc == 0 then effective [] (split_lines out) else [])

  -- `_is_enabled`
  unfoldable pub is_enabled : Chars → Act M Bool
  unfolding systemctl
  is_enabled unit = do
    (rc, out) ← systemctl (chars "is-enabled" ∷ timer unit ∷ [])
    returns (rc == 0)

  -- the expression that is loaded, else that of the drop-in, else the default
  unfoldable pub current : Chars → Act M Chars
  unfolding read_effective
  current unit = do
    oncal ← read_effective unit
    λ w. (ok (or_else oncal (or_else (read_dropin (w.dropin unit)).0 (default_oncalendar unit))), w)

  unfoldable pub get_schedule : Chars → Act M Schedule
  unfolding current is_enabled next_run
  get_schedule unit = do
    unless (one_of unit supported_units) bad_unit
    oncal ← current unit
    enabled ← is_enabled unit
    next ← next_run unit
    returns (record {
      unit = unit;
      enabled = enabled;
      preset = parse_oncalendar oncal;
      oncalendar = oncal;
      next_run = next;
    })

  -- enable and restart the timer, or disable it
  unfoldable pub switch : Chars → Bool → Act M (Unit {0})
  unfolding systemctl
  switch unit true = do
    (rc, out) ← systemctl (chars "enable" ∷ chars "--now" ∷ timer unit ∷ [])
    unless (rc == 0 || contains (lower out) (chars "already")) enable_failed
    (rc', out') ← systemctl (chars "restart" ∷ timer unit ∷ [])
    unless (rc' == 0) restart_failed
  switch unit false = do
    answer ← systemctl (chars "disable" ∷ chars "--now" ∷ timer unit ∷ [])
    returns tt

  -- what `set_schedule` does once its arguments are checked
  unfoldable pub apply_schedule : Chars → Chars → Chars → Bool → Act M Schedule
  unfolding write_dropin systemctl switch get_schedule
  apply_schedule unit expr delay enabled = do
    write_dropin unit expr delay
    (rc, out) ← systemctl (chars "daemon-reload" ∷ [])
    unless (rc == 0) reload_failed
    switch unit enabled
    get_schedule unit

  unfoldable pub set_schedule :
      Chars → Chars → Chars → Chars → ℕ → Chars → Chars → Bool → Act M Schedule
  unfolding expression validate_oncalendar apply_schedule
  set_schedule unit kind time weekday day oncalendar delay enabled = do
    unless (one_of unit supported_units) bad_unit
    expr ← outcome (expression kind time weekday day oncalendar)
    validate_oncalendar expr
    unless (is_delay (strip (or_else delay default_delay))) bad_delay
    apply_schedule unit expr (strip (or_else delay default_delay)) enabled

  unfoldable pub schedules : List Chars → Act M (List Schedule)
  unfolding get_schedule
  schedules [] = returns []
  schedules (unit ∷ units) = do s ← get_schedule unit; rest ← schedules units; returns (s ∷ rest)

  unfoldable pub list_schedules : Act M (List Schedule)
  unfolding schedules
  list_schedules = schedules supported_units
