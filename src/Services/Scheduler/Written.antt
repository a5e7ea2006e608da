-- ===== src/Services/Scheduler/Written.antt =====
-- What `set_schedule` leaves in the drop-in files, however it ends.
use snapshot_drive.Prelude.{
  ℕ, ◌≡◌, ◌≢◌, refl, ap, ◌∙◌, Bool, true, false, not, ◌&&◌, List, [], arith, Bool-cases, inl, inr,
  ◌⊎◌, Result, ok, err, is_ok, length, ltb, ◌==◌,
}
use snapshot_drive.Prelude.Chars.{Chars, same, one_of, same_self, strip, or_else}
use snapshot_drive.Prelude.Chars.Scan.{every}
use snapshot_drive.Services.Scheduler.Calendar.{ScheduleError, bad_calendar, bad_unit, bad_delay}
use snapshot_drive.Services.Scheduler.Accepted.{
  IsAskedFor, expression-IsAskedFor, expression-IsSetting, delay-IsSetting,
}
use snapshot_drive.Services.Scheduler.Dropin.{default_delay, read_dropin}
use snapshot_drive.Services.Scheduler.Dropin.RoundTrip.{IsSetting, read_dropin-dropin_body}
use snapshot_drive.Services.Scheduler.{
  Run, finished, timed_out, not_found, Raised, World, Host, Act, continue, unless, answer, judge,
  supported_units, put_dropin, validate_oncalendar, write_dropin, systemctl, next_run,
  read_effective, is_enabled, current, get_schedule, switch, apply_schedule, expression,
  set_schedule, is_calendar_code,
}

module _ {M : Type 0} where
  -- An act that leaves the drop-in files as they are.
  abbrev pub Keeps : {A : Type 0} → Act M A → Type 0
  Keeps act = (w : World M) → (act w).1.dropin ≡ w.dropin

  Keeps-continue :
      {A B : Type 0} (r : Result Raised A × World M) (next : A → Act M B)
      → ((a : A) → Keeps (next a))
      → (continue r next).1.dropin ≡ r.1.dropin
  unfolding continue
  Keeps-continue (ok a, w) next h = h a w
  Keeps-continue (err e, w) next h = refl

  Keeps-bind :
      {A B : Type 0} (act : Act M A) (next : A → Act M B)
      → Keeps act
      → ((a : A) → Keeps (next a))
      → Keeps (λ w. continue (act w) next)
  Keeps-bind act next h k w = Keeps-continue (act w) next k ∙ h w

  pub unless-Keeps : (b : Bool) (why : ScheduleError) → Keeps (unless b why)
  unless-Keeps true why w = refl
  unless-Keeps false why w = refl

  answer-Keeps : (run : Run) → Keeps (answer run)
  unfolding answer
  answer-Keeps (finished rc out errors) w = refl
  answer-Keeps timed_out w = refl
  answer-Keeps not_found w = refl

  judge-Keeps : (run : Run) → Keeps (judge run)
  unfolding judge
  judge-Keeps (finished rc out errors) w = unless-Keeps _ _ w
  judge-Keeps timed_out w = refl
  judge-Keeps not_found w = refl

module _ {M : Type 0} (host : Host M) where
  systemctl-Keeps : (args : List Chars) → Keeps (systemctl host args)
  unfolding systemctl
  systemctl-Keeps args w = answer-Keeps (host.systemctl w args).1 _

  pub read_effective-Keeps : (unit : Chars) → Keeps (read_effective host unit)
  unfolding read_effective
  read_effective-Keeps unit = Keeps-bind _ _ (systemctl-Keeps _) (λ a w. refl)

  pub get_schedule-Keeps : (unit : Chars) → Keeps (get_schedule host unit)
  unfolding get_schedule current read_effective is_enabled next_run
  get_schedule-Keeps unit = Keeps-bind _ _ (unless-Keeps _ _) (λ supported.
      Keeps-bind _ _
        (Keeps-bind _ _ (Keeps-bind _ _ (systemctl-Keeps _) (λ a w. refl)) (λ a w. refl))
        (λ oncal. Keeps-bind _ _ (Keeps-bind _ _ (systemctl-Keeps _) (λ a w. refl)) (λ enabled.
          Keeps-bind _ _ (Keeps-bind _ _ (systemctl-Keeps _) (λ a w. refl)) (λ a w. refl))))

  switch-Keeps : (unit : Chars) (enabled : Bool) → Keeps (switch host unit enabled)
  unfolding switch
  switch-Keeps unit true = Keeps-bind _ _ (systemctl-Keeps _) (λ a.
      Keeps-bind _ _ (unless-Keeps _ _)
        (λ b. Keeps-bind _ _ (systemctl-Keeps _) (λ c. unless-Keeps _ _)))
  switch-Keeps unit false = Keeps-bind _ _ (systemctl-Keeps _) (λ a w. refl)

  validate_oncalendar-Keeps : (expr : Chars) → Keeps (validate_oncalendar host expr)
  unfolding validate_oncalendar
  validate_oncalendar-Keeps expr =
      Keeps-bind _ _ (unless-Keeps _ _)
        (λ a. Keeps-bind _ _ (unless-Keeps _ _) (λ b. judge-Keeps (host.analyze expr)))

-- Systemd has taken the expression.
abbrev pub IsCalendar : Run → Type 0
IsCalendar run = (out : Chars) × (errors : Chars) × (run ≡ finished 0 out errors)

module _ {M : Type 0} (w : World M) (Q : World M → Type 0) where
  -- An act either raised and left the files as they were in `w`, or left a world as described.
  abbrev pub Ends : {A : Type 0} → Result Raised A × World M → Type 0
  Ends r = ((is_ok r.0 ≡ false) × (r.1.dropin ≡ w.dropin)) ⊎ Q r.1

  Ends-step :
      {A B : Type 0} (r : Result Raised A × World M) (next : A → Act M B)
      → r.1.dropin ≡ w.dropin
      → ((a : A) (v : World M) → r.0 ≡ ok a → v.dropin ≡ w.dropin → Ends (next a v))
      → Ends (continue r next)
  unfolding continue
  Ends-step (ok a, v) next keep later = later a v refl keep
  Ends-step (err e, v) next keep later = inl (refl, keep)

  Ends-unless :
      {B : Type 0} (b : Bool) (why : ScheduleError) (v : World M) (next : Unit {0} → Act M B)
      → v.dropin ≡ w.dropin
      → (b ≡ true → (u : World M) → u.dropin ≡ w.dropin → Ends (next tt u))
      → Ends (continue (unless b why v) next)
  unfolding continue
  Ends-unless true why v next keep later = later refl v keep
  Ends-unless false why v next keep later = inl (refl, keep)

module _ {M : Type 0} where
  pub continue_ok :
      {A B : Type 0} (r : Result Raised A × World M) (next : A → Act M B) {b : B}
      → (continue r next).0 ≡ ok b
      → (a : A) × (r.0 ≡ ok a) × ((next a r.1).0 ≡ ok b) × (continue r next ≡ next a r.1)
  unfolding continue
  continue_ok (ok a, v) next h = (a, refl, h, refl)
  continue_ok (err e, v) next h = cc

  unless_ok :
      (b : Bool) (why : ScheduleError) (v : World M) {passed : Unit {0}}
      → (unless b why v).0 ≡ ok passed
      → b ≡ true
  unless_ok true why v h = refl
  unless_ok false why v h = cc

  judge_ok :
      (run : Run) (v : World M) {passed : Unit {0}} → (judge run v).0 ≡ ok passed → IsCalendar run
  unfolding judge
  judge_ok (finished rc out errors) v h =
      let zero_rc : rc ≡ 0 = ground (arith, unless_ok (rc == 0) bad_calendar v h) in
      (out, errors, rw zero_rc refl)
  judge_ok timed_out v h = cc
  judge_ok not_found v h = cc

  validate_oncalendar_ok :
      (host : Host M) (expr : Chars) (v : World M) {passed : Unit {0}}
      → (validate_oncalendar host expr v).0 ≡ ok passed
      → ((not (same expr []) && not (ltb 256 (length expr))) ≡ true)
        × (every is_calendar_code expr ≡ true)
        × IsCalendar (host.analyze expr)
  unfolding validate_oncalendar
  validate_oncalendar_ok host expr v h =
      let (a, size, rest, done) = continue_ok _ _ h in
      let (b, codes, judged, done') = continue_ok _ _ rest in
      (unless_ok _ _ _ size, unless_ok _ _ _ codes, judge_ok (host.analyze expr) _ judged)

-- the delay that is written
abbrev pub chosen_delay : Chars → Chars
chosen_delay delay = strip (or_else delay default_delay)

module _ {M : Type 0} (host : Host M) (unit kind time weekday : Chars) (day : ℕ)
    (oncalendar delay : Chars) (enabled : Bool) (w : World M) where
  -- What an accepted schedule leaves behind: an expression that was asked for and that systemd
  -- takes, which the file of the unit reads back as, with the delay; the other files as before.
  abbrev pub Saved : World M → Type 0
  Saved v =
      (one_of unit supported_units ≡ true)
      × ((expr : Chars) × IsAskedFor kind time weekday day oncalendar expr
          × (expr ≢ [])
          × IsCalendar (host.analyze expr)
          × (read_dropin (v.dropin unit) ≡ (expr, chosen_delay delay)))
      × ((other : Chars) → same other unit ≡ false → v.dropin other ≡ w.dropin other)

  read_dropin-put_dropin :
      (expr : Chars) (v : World M)
      → IsSetting expr
      → IsSetting (chosen_delay delay)
      → read_dropin ((put_dropin unit expr (chosen_delay delay) v).dropin unit)
        ≡ (expr, chosen_delay delay)
  unfolding put_dropin
  read_dropin-put_dropin expr v e d =
      rw (same_self unit) (read_dropin-dropin_body expr (chosen_delay delay) e d)

  put_dropin_other :
      (expr : Chars) (v : World M) (other : Chars)
      → same other unit ≡ false
      → (put_dropin unit expr (chosen_delay delay) v).dropin other ≡ v.dropin other
  unfolding put_dropin
  put_dropin_other expr v other apart = rw apart refl

  write_dropin-Saved :
      {B : Type 0} (expr : Chars) (v : World M) (next : Unit {0} → Act M B)
      → v.dropin ≡ w.dropin
      → one_of unit supported_units ≡ true
      → IsAskedFor kind time weekday day oncalendar expr
      → IsCalendar (host.analyze expr)
      → IsSetting expr
      → IsSetting (chosen_delay delay)
      → ((u : World M) → (next tt u).1.dropin ≡ u.dropin)
      → Ends w Saved (continue (write_dropin host unit expr (chosen_delay delay) v) next)
  unfolding write_dropin continue
  write_dropin-Saved expr v next before supported asked taken e d keeps =
      elim (Bool-cases (host.writable unit)) [
        | inr refused ↦ rw refused (inl (refl, before))
        | inl allowed ↦
            let written = keeps (put_dropin unit expr (chosen_delay delay) v) in
            rw allowed (
              inr (
                supported,
                (
                  expr,
                  asked,
                  e.some_text,
                  taken,
                  ap (λ f. read_dropin (f unit)) written ∙ read_dropin-put_dropin expr v e d,
                ),
                λ other apart.
                    ap (λ f. f other) written
                    ∙ put_dropin_other expr v other apart
                    ∙ ap (λ f. f other) before,
              ))
      ]

  -- However `set_schedule` ends: either it raised, and every drop-in file is what it was; or the
  -- unit is a known one, the drop-in file of the unit reads back as the expression that was asked
  -- for (the one typed, for a custom schedule, else the one built from the fields), which
  -- systemd-analyze took, with the delay that was given, and the other files are what they were.
  pub set_schedule_lem :
      Ends w Saved (set_schedule host unit kind time weekday day oncalendar delay enabled w)
  unfolding set_schedule validate_oncalendar apply_schedule
  set_schedule_lem = Ends-unless w Saved _ bad_unit w _ refl (λ supported v1 k1.
      Ends-step w Saved (expression kind time weekday day oncalendar, v1) _ k1
        (λ expr v2 asked k2.
          let form = expression-IsAskedFor kind time weekday day oncalendar asked in
          Ends-step w Saved _ _ (validate_oncalendar-Keeps host expr v2 ∙ k2) (λ passed v3 valid k3.
            let (size, codes, taken) = validate_oncalendar_ok host expr v2 valid in
            let e = expression-IsSetting kind time weekday day oncalendar form size codes in
            Ends-unless w Saved _ bad_delay v3 _ k3 (λ delayed v4 k4.
              write_dropin-Saved expr v4 _ k4 supported form taken e (delay-IsSetting _ delayed) (
                Keeps-bind _ _ (systemctl-Keeps host _) (λ a.
                  Keeps-bind _ _ (unless-Keeps _ _) (λ b.
                    Keeps-bind _ _ (switch-Keeps host unit enabled)
                      (λ c. get_schedule-Keeps host unit))))))))
