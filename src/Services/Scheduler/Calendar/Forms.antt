-- ===== src/Services/Scheduler/Calendar/Forms.antt =====
-- Each form of a calendar expression that the program writes, read back.
use snapshot_drive.Prelude.{
  ℕ, ◌+◌, ◌*◌, ◌-◌, ◌/◌, ◌%◌, ◌<◌, ◌≡◌, refl, ap, ◌∙◌, All, true, false, some, [], ◌∷◌, ◌++◌, arith,
  ◌==◌,
}
use snapshot_drive.Prelude.Chars.{Chars, chars, same, rstrip, strip, two_digits, is_blank, is_digit}
use snapshot_drive.Prelude.Chars.Blanks.{strip_between, lstrip_cons}
use snapshot_drive.Prelude.Chars.Scan.{literal, blanks}
use snapshot_drive.Services.Scheduler.Calendar.Patterns.{
  weekday_names, clock, daily_time, hourly_pattern, weekly_time, monthly_time,
}
use snapshot_drive.Services.Scheduler.Calendar.{
  Preset, custom, show_time, preset_of, parse_oncalendar,
}

-- A text with no blanks at its ends that reads as the preset.
pub record Shows (s : Chars) (p : Preset) : Type 0 where
  pub bare : strip s ≡ s
  pub read : parse_oncalendar s ≡ p

pub shows : (s : Chars) {p : Preset} → strip s ≡ s → preset_of s ≡ p → Shows s p
unfolding parse_oncalendar
shows s bare read = record { bare = bare; read = ap preset_of bare ∙ read }

is_digit-tens : (n : ℕ) → n < 100 → is_digit (48 + n / 10) ≡ true
is_digit-tens n h = ground arith

is_digit-ones : (n : ℕ) → is_digit (48 + n % 10) ≡ true
is_digit-ones n = ground arith

is_blank-tens : (n : ℕ) → n < 100 → is_blank (48 + n / 10) ≡ false
is_blank-tens n h = ground arith

module _ (h mi : ℕ) (hour : h < 24) (minute : mi < 60) where
  clock-show_time : clock (show_time h mi ++ chars ":00") ≡ some (show_time h mi)
  unfolding clock literal
  clock-show_time =
      rw
        (
          is_digit-tens h (omega arith),
          is_digit-ones h,
          is_digit-tens mi (omega arith),
          is_digit-ones mi,
        )
        refl

  blanks-show_time :
      blanks (b' ' ∷ (show_time h mi ++ chars ":00")) ≡ some (show_time h mi ++ chars ":00")
  unfolding blanks
  blanks-show_time = rw (lstrip_cons _ _ (is_blank-tens h (omega arith))) refl

  daily_time_lem :
      daily_time (chars "*-*-*" ++ (b' ' ∷ (show_time h mi ++ chars ":00"))) ≡ some (show_time h mi)
  unfolding daily_time literal
  daily_time_lem = rw (blanks-show_time, clock-show_time) refl

  hourly_pattern_lem :
      hourly_pattern (chars "*-*-*" ++ (b' ' ∷ (show_time h mi ++ chars ":00"))) ≡ false
  unfolding hourly_pattern literal
  hourly_pattern_lem = rw blanks-show_time (ground arith)

  pub parse_daily :
      Shows
        (chars "*-*-*" ++ (b' ' ∷ (show_time h mi ++ chars ":00")))
        (record custom { kind = chars "daily"; time = show_time h mi })
  unfolding preset_of same
  parse_daily =
      shows _
        (strip_between b'*' (chars "-*-*" ++ (b' ' ∷ show_time h mi)) b':' (chars "00") refl
          (unfold rstrip in refl))
        (rw (hourly_pattern_lem, daily_time_lem) refl)

  -- three letters in front of a daily time, the first of them none of those that the other
  -- patterns begin with
  parse_weekly :
      (a b c : ℕ)
      → is_blank a ≡ false
      → (b'*' == a) ≡ false
      → (a == b'h') ≡ false
      → weekly_time weekday_names (a ∷ b ∷ c ∷ (chars " *-*-* " ++ (show_time h mi ++ chars ":00")))
        ≡ some (a ∷ b ∷ c ∷ [], show_time h mi)
      → Shows
          (a ∷ b ∷ c ∷ (chars " *-*-* " ++ (show_time h mi ++ chars ":00")))
          (record custom { kind = chars "weekly"; weekday = a ∷ b ∷ c ∷ []; time = show_time h mi })
  unfolding preset_of same hourly_pattern daily_time literal
  parse_weekly a b c letter star hour_word found =
      shows _
        (strip_between a (b ∷ c ∷ (chars " *-*-* " ++ show_time h mi)) b':' (chars "00") letter
          (unfold rstrip in refl))
        (rw (star, hour_word, found) refl)

  abbrev pub IsWeekly : Chars → Type 0
  IsWeekly w =
      Shows (w ++ chars " *-*-*" ++ (b' ' ∷ (show_time h mi ++ chars ":00")))
        (record custom { kind = chars "weekly"; weekday = w; time = show_time h mi })

  pub weekday_names-IsWeekly : All IsWeekly weekday_names
  unfolding weekly_time literal blanks
  weekday_names-IsWeekly = (
    parse_weekly b'M' b'o' b'n' refl refl refl (rw daily_time_lem refl),
    (
      parse_weekly b'T' b'u' b'e' refl refl refl (rw daily_time_lem refl),
      (
        parse_weekly b'W' b'e' b'd' refl refl refl (rw daily_time_lem refl),
        (
          parse_weekly b'T' b'h' b'u' refl refl refl (rw daily_time_lem refl),
          (
            parse_weekly b'F' b'r' b'i' refl refl refl (rw daily_time_lem refl),
            (
              parse_weekly b'S' b'a' b't' refl refl refl (rw daily_time_lem refl),
              (parse_weekly b'S' b'u' b'n' refl refl refl (rw daily_time_lem refl), tt),
            ),
          ),
        ),
      ),
    ),
  )

  pub parse_monthly :
      (day : ℕ)
      → day < 100
      → Shows
          (chars "*-*-" ++ two_digits day ++ (b' ' ∷ (show_time h mi ++ chars ":00")))
          (record custom { kind = chars "monthly"; day = day; time = show_time h mi })
  unfolding preset_of same hourly_pattern daily_time literal monthly_time weekly_time
  parse_monthly day small =
      let tens : (b'*' == 48 + day / 10) ≡ false = ground arith in
      let value : 10 * (48 + day / 10 - 48) + (48 + day % 10 - 48) ≡ day = omega arith in
      shows _
        (strip_between b'*' (chars "-*-" ++ (two_digits day ++ (b' ' ∷ show_time h mi))) b':'
          (chars "00") refl (unfold rstrip in refl))
        (rw
          (
            tens,
            is_digit-tens day small,
            is_digit-ones day,
            blanks-show_time,
            clock-show_time,
            value,
          )
          refl)
