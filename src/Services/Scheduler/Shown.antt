-- ===== src/Services/Scheduler/Shown.antt =====
-- What `set_schedule` returns: the schedule that was asked for.
use snapshot_drive.Prelude.{
  ℕ, ◌≡◌, ◌≢◌, refl, sym, ap, ◌∙◌, subst, Bool, true, false, inl, inr, ◌⊎◌, ok, ok_injective, [],
  ◌∷◌, if◌then◌else◌, ◌==◌,
}
use snapshot_drive.Prelude.Chars.{Chars, chars, or_else, lower, one_of, strip}
use snapshot_drive.Services.Scheduler.Accepted.{IsAskedFor}
use snapshot_drive.Services.Scheduler.Calendar.{ScheduleError, bad_unit, parse_oncalendar}
use snapshot_drive.Services.Scheduler.Calendar.RoundTrip.{Asks, parse_oncalendar-build_oncalendar}
use snapshot_drive.Services.Scheduler.Dropin.{read_dropin}
use snapshot_drive.Services.Scheduler.Dropin.RoundTrip.{or_else-some}
use snapshot_drive.Services.Scheduler.Written.{
  continue_ok, read_effective-Keeps, get_schedule-Keeps, set_schedule_lem,
}
use snapshot_drive.Services.Scheduler.{
  World, Host, Schedule, default_oncalendar, supported_units, read_effective, current, get_schedule,
  apply_schedule, set_schedule, unless,
}

unless_same : {M : Type 0} (b : Bool) (why : ScheduleError) (w : World M) → (unless b why w).1 ≡ w
unless_same true why w = refl
unless_same false why w = refl

module _ {M : Type 0} (host : Host M) (unit : Chars) where
  -- what the drop-in file of the unit says
  abbrev filed : World M → Chars
  filed v = (read_dropin (v.dropin unit)).0

  -- The text is what systemctl shows, or, where it shows nothing, the one of the drop-in file.
  abbrev IsCurrent : World M → Chars → Type 0
  IsCurrent u shown =
      (oncal : Chars) × ((read_effective host unit u).0 ≡ ok oncal)
      × (shown ≡ or_else oncal (or_else (filed u) (default_oncalendar unit)))

  current_ok :
      (v : World M) {shown : Chars} → (current host unit v).0 ≡ ok shown → IsCurrent v shown
  unfolding current
  current_ok v h =
      let (oncal, loaded, rest, e) = continue_ok _ _ h in
      let file = ap (λ f. (read_dropin (f unit)).0) (read_effective-Keeps host unit v) in
      (
        oncal,
        loaded,
        sym (ok_injective rest)
            ∙ ap (λ x. or_else oncal (or_else x (default_oncalendar unit))) file,
      )

  get_schedule_ok :
      (u : World M) {s : Schedule}
      → (get_schedule host unit u).0 ≡ ok s
      → (s.unit ≡ unit) × (s.preset ≡ parse_oncalendar s.oncalendar) × IsCurrent u s.oncalendar
  unfolding get_schedule
  get_schedule_ok u {s} h =
      let (a, supported, rest, e) = continue_ok _ _ h in
      let (oncal, shown, rest', e') = continue_ok _ _ rest in
      let (enabled, is_on, rest'', e'') = continue_ok _ _ rest' in
      let (next, known, last, e''') = continue_ok _ _ rest'' in
      let is = ok_injective last in
      let here =
        subst (λ v. IsCurrent v oncal) (unless_same (one_of unit supported_units) bad_unit u)
          (current_ok _ shown) in
      (
        ap (λ r. r.unit) (sym is),
        subst (λ r. r.preset ≡ parse_oncalendar r.oncalendar) is refl,
        subst (λ r. IsCurrent u r.oncalendar) is here,
      )

  module _ (kind time weekday : Chars) (day : ℕ) (oncalendar delay : Chars) (enabled : Bool)
      (w : World M) where
    -- the last step of a schedule that was accepted
    set_schedule-get_schedule :
        {s : Schedule}
        → (set_schedule host unit kind time weekday day oncalendar delay enabled w).0 ≡ ok s
        → (u : World M) × (set_schedule host unit kind time weekday day oncalendar delay enabled w
            ≡ get_schedule host unit u)
    unfolding set_schedule apply_schedule
    set_schedule-get_schedule h =
        let (a1, e1, h1, s1) = continue_ok _ _ h in
        let (a2, e2, h2, s2) = continue_ok _ _ h1 in
        let (a3, e3, h3, s3) = continue_ok _ _ h2 in
        let (a4, e4, h4, s4) = continue_ok _ _ h3 in
        let (a5, e5, h5, s5) = continue_ok _ _ h4 in
        let (a6, e6, h6, s6) = continue_ok _ _ h5 in
        let (a7, e7, h7, s7) = continue_ok _ _ h6 in
        let (a8, e8, h8, s8) = continue_ok _ _ h7 in (_, s1 ∙ s2 ∙ s3 ∙ s4 ∙ s5 ∙ s6 ∙ s7 ∙ s8)

    -- The schedule is what the form asks for.
    abbrev pub IsAnswer : Schedule → Type 0
    IsAnswer s =
        ((kind ≡ chars "custom") × (s.oncalendar ≡ strip oncalendar))
        ⊎ ((kind ≢ chars "custom")
            × Asks (lower (or_else kind (chars "daily"))) time weekday (if day == 0 then 1 else day)
                s.preset)

    -- What systemctl shows for the timer is the expression of the schedule; where it shows none,
    -- the schedule is what the form asks for.
    abbrev pub IsShown : World M → Schedule → Type 0
    IsShown u s =
        (oncal : Chars) × ((read_effective host unit u).0 ≡ ok oncal)
        × (((oncal ≢ []) × (s.oncalendar ≡ oncal)) ⊎ ((oncal ≡ []) × IsAnswer s))

    asked-IsAnswer :
        (s : Schedule) (expr : Chars)
        → IsAskedFor kind time weekday day oncalendar expr
        → s.preset ≡ parse_oncalendar s.oncalendar
        → s.oncalendar ≡ expr
        → IsAnswer s
    asked-IsAnswer s expr (inl (custom, typed)) p e = inl (custom, e ∙ typed)
    asked-IsAnswer s expr (inr (other, built)) p e = inr (
      other,
      subst (Asks _ time weekday _) (sym (p ∙ ap parse_oncalendar e))
          (parse_oncalendar-build_oncalendar kind time weekday _ built),
    )

    or_else-IsShown :
        (s : Schedule) (u : World M) (oncal expr : Chars)
        → IsAskedFor kind time weekday day oncalendar expr
        → expr ≢ []
        → s.preset ≡ parse_oncalendar s.oncalendar
        → s.oncalendar ≡ or_else oncal (or_else expr (default_oncalendar unit))
        → (read_effective host unit u).0 ≡ ok oncal
        → IsShown u s
    unfolding or_else
    or_else-IsShown s u [] expr asked some_text p e loaded =
        ([], loaded, inr (refl, asked-IsAnswer s expr asked p (e ∙ or_else-some expr _ some_text)))
    or_else-IsShown s u (c ∷ oncal) expr asked some_text p e loaded =
        (c ∷ oncal, loaded, inl ((λ none_shown. cc), e))

    -- A schedule that `set_schedule` returns is read at the end, when all is written; it is of the
    -- unit, and its fields are those of its expression. The expression is what systemctl shows for
    -- the timer at that point. Where systemctl shows none, the schedule is what was asked for: the
    -- expression that was typed, for a custom one; for any other, the kind in small letters (daily
    -- if none was given), the weekday and the day if the kind has one, and the time in two digits
    -- each.
    pub set_schedule-Asks :
        {s : Schedule}
        → (set_schedule host unit kind time weekday day oncalendar delay enabled w).0 ≡ ok s
        → (s.unit ≡ unit)
          × (s.preset ≡ parse_oncalendar s.oncalendar)
          × (u : World M) × (set_schedule host unit kind time weekday day oncalendar delay enabled w
              ≡ get_schedule host unit u)
          × IsShown u s
    set_schedule-Asks {s} h =
        elim (set_schedule_lem host unit kind time weekday day oncalendar delay enabled w) [
          | inl (raised, before) ↦ (let returned = rw h at raised in cc)
          | inr (supported, (expr, asked, some_text, taken, back), others) ↦
              let (u, last) = set_schedule-get_schedule h in
              let file : filed u ≡ expr =
                ap (λ f. (read_dropin (f unit)).0)
                  (sym (get_schedule-Keeps host unit u) ∙ ap (λ r. r.1.dropin) (sym last))
                ∙ ap (λ r. r.0) back in
              let (is_unit, is_preset, (oncal, loaded, is_expr)) =
                get_schedule_ok u (ap (λ r. r.0) (sym last) ∙ h) in
              let shown =
                is_expr ∙ ap (λ x. or_else oncal (or_else x (default_oncalendar unit))) file in
              (
                is_unit,
                is_preset,
                u,
                last,
                or_else-IsShown s u oncal expr asked some_text is_preset shown loaded,
              )
        ]
