-- ===== src/Services/Scheduler/Accepted.antt =====
-- The expressions and delays that `set_schedule` lets through.
use snapshot_drive.Prelude.{
  ℕ, ◌≡◌, ◌≢◌, refl, sym, subst, Bool, true, false, not, ◌&&◌, ◌||◌, [], ◌∷◌, arith, if◌then◌else◌,
  Bool-cases, inl, inr, ◌⊎◌, Result, ok, err, length, ltb, ◌==◌,
}
use snapshot_drive.Prelude.Chars.{Chars, chars, same, one_of, same_iff, strip, is_digit, is_break}
use snapshot_drive.Prelude.Chars.Scan.{every, span}
use snapshot_drive.Prelude.Chars.Blanks.{IsTrimmed, strip-IsTrimmed}
use snapshot_drive.Prelude.Chars.Lines.{IsLine}
use snapshot_drive.Prelude.Chars.Spans.{
  one_of-All, span_append, every-span, every-append, every_weaken,
}
use snapshot_drive.Services.Scheduler.Calendar.{ScheduleError, no_expression, build_oncalendar}
use snapshot_drive.Services.Scheduler.Calendar.RoundTrip.{build_oncalendar-bare}
use snapshot_drive.Services.Scheduler.Dropin.RoundTrip.{IsSetting}
use snapshot_drive.Services.Scheduler.{
  delay_units, expression, is_delay, is_calendar_code, schedule, raised_as,
}

-- The expression that a form asks for: what was typed, for a custom schedule, and what is
-- built from the fields, for any other.
abbrev pub IsAskedFor : Chars → Chars → Chars → ℕ → Chars → Chars → Type 0
IsAskedFor kind time weekday day oncalendar expr =
    ((kind ≡ chars "custom") × (expr ≡ strip oncalendar))
    ⊎ ((kind ≢ chars "custom")
        × (build_oncalendar kind time weekday (if day == 0 then 1 else day) ≡ ok expr))

raised_as-eq-ok :
    (r : Result ScheduleError Chars) {expr : Chars} → raised_as r ≡ ok expr → r ≡ ok expr
raised_as-eq-ok (ok a) e = cc
raised_as-eq-ok (err a) e = cc

pub expression-IsAskedFor :
    (kind time weekday : Chars) (day : ℕ) (oncalendar : Chars) {expr : Chars}
    → expression kind time weekday day oncalendar ≡ ok expr
    → IsAskedFor kind time weekday day oncalendar expr
unfolding expression
expression-IsAskedFor kind time weekday day oncalendar {expr} e =
    elim (Bool-cases (same kind (chars "custom"))) [
      | inl is ↦ inl ((same_iff _ _).0 is, typed (same (strip oncalendar) []) _ (rw is at e))
      | inr other ↦
          inr (λ is. (let yes_is = (same_iff _ _).1 is in cc), raised_as-eq-ok _ (rw other at e))
    ]
  where
    typed :
        (b : Bool) (s : Chars)
        → (if b then err (schedule no_expression) else ok s) ≡ ok expr
        → expr ≡ s
    typed true s h = cc
    typed false s h = cc

IsAskedFor-IsTrimmed :
    (kind time weekday : Chars) (day : ℕ) (oncalendar : Chars) {expr : Chars}
    → IsAskedFor kind time weekday day oncalendar expr
    → IsTrimmed expr
IsAskedFor-IsTrimmed kind time weekday day oncalendar (inl (custom, typed)) =
    subst IsTrimmed (sym typed) (strip-IsTrimmed oncalendar)
IsAskedFor-IsTrimmed kind time weekday day oncalendar (inr (other, built)) =
    subst IsTrimmed (build_oncalendar-bare kind time weekday _ built) (strip-IsTrimmed _)

calendar-IsLine : (s : Chars) → every is_calendar_code s ≡ true → IsLine s
calendar-IsLine s = every_weaken is_calendar_code (λ c. not (is_break c)) s (λ c h. ground arith)

unit-IsLine : (s : Chars) → (same s [] || one_of s delay_units) ≡ true → IsLine s
unfolding every one_of same
unit-IsLine [] h = refl
unit-IsLine (c ∷ s) h =
    one_of-All IsLine (c ∷ s) delay_units (refl, (refl, (refl, (refl, (refl, tt))))) h

is_delay-IsLine : (s : Chars) → is_delay s ≡ true → IsLine s
unfolding is_delay
is_delay-IsLine s h = subst IsLine (span_append is_digit s) (
    every-append (λ c. not (is_break c)) (span is_digit s).0 (span is_digit s).1
      (every_weaken is_digit (λ c. not (is_break c)) _ (λ c e. ground arith)
        (every-span is_digit s))
      (unit-IsLine (span is_digit s).1 (ground arith)))

is_delay-ne-nil : (s : Chars) → is_delay s ≡ true → s ≢ []
unfolding is_delay span same one_of
is_delay-ne-nil s h e = let refused = subst (λ x. is_delay x ≡ true) e h in cc

pub expression-IsSetting :
    (kind time weekday : Chars) (day : ℕ) (oncalendar : Chars) {expr : Chars}
    → IsAskedFor kind time weekday day oncalendar expr
    → (not (same expr []) && not (ltb 256 (length expr))) ≡ true
    → every is_calendar_code expr ≡ true
    → IsSetting expr
expression-IsSetting kind time weekday day oncalendar {expr} asked size codes = record {
  one_line = calendar-IsLine expr codes;
  trimmed = IsAskedFor-IsTrimmed kind time weekday day oncalendar asked;
  some_text = λ e. (let is = (same_iff expr []).1 e in ground arith);
}

pub delay-IsSetting : (delay : Chars) → is_delay (strip delay) ≡ true → IsSetting (strip delay)
delay-IsSetting delay h = record {
  one_line = is_delay-IsLine (strip delay) h;
  trimmed = strip-IsTrimmed delay;
  some_text = is_delay-ne-nil (strip delay) h;
}
