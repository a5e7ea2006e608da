-- ===== src/Services/Scheduler/Dropin/RoundTrip.antt =====
-- The drop-in file that the program writes, read back.
use snapshot_drive.Prelude.{◌≡◌, ◌≢◌, refl, ap, ◌∙◌, [], ◌∷◌, ◌++◌, List}
use snapshot_drive.Prelude.Chars.{Chars, chars, or_else, split_lines, strip, lstrip, rstrip}
use snapshot_drive.Prelude.Chars.Blanks.{IsTrimmed, strip-literal, strip_trimmed}
use snapshot_drive.Prelude.Chars.Lines.{IsLine, split_lines-line}
use snapshot_drive.Prelude.Chars.Scan.{literal}
use snapshot_drive.Services.ConfFile.{text}
use snapshot_drive.Services.Scheduler.Dropin.{
  default_delay, dropin_line, dropin_lines, read_dropin, dropin_body,
}

-- what a setting of a drop-in may be
pub record IsSetting (s : Chars) : Type 0 where
  pub one_line : IsLine s
  pub trimmed : IsTrimmed s
  pub some_text : s ≢ []

pub or_else-some : (s other : Chars) → s ≢ [] → or_else s other ≡ s
unfolding or_else
or_else-some [] other h = absurd (h refl)
or_else-some (c ∷ s) other h = refl

module _ (expr delay : Chars) (e : IsSetting expr) (d : IsSetting delay) where
  abbrev body_lines : List Chars
  body_lines =
      chars "# Generado por snapshot-V3 (panel web)"
      ∷ chars "[Timer]"
      ∷ chars "OnCalendar="
      ∷ (chars "OnCalendar=" ++ expr)
      ∷ (chars "RandomizedDelaySec=" ++ delay)
      ∷ chars "Persistent=true"
      ∷ []

  split_lines-dropin_body : split_lines (dropin_body expr delay) ≡ body_lines
  unfolding split_lines dropin_body
  split_lines-dropin_body =
      rw
        (
          or_else-some delay default_delay d.some_text,
          split_lines-line expr _ e.one_line,
          split_lines-line delay _ d.one_line,
        )
        refl

  dropin_lines-body_lines : dropin_lines ([], []) body_lines ≡ (expr, delay)
  unfolding dropin_lines dropin_line literal
  dropin_lines-body_lines =
      rw
        (
          strip-literal b'O' (chars "nCalendar=") expr refl e.some_text e.trimmed.1,
          strip-literal b'R' (chars "andomizedDelaySec=") delay refl d.some_text d.trimmed.1,
          strip_trimmed expr e.trimmed,
          strip_trimmed delay d.trimmed,
        )
        (unfold strip lstrip rstrip or_else in rw (or_else-some expr [] e.some_text) refl)

  -- A drop-in that was just written reads back as the expression and the delay that it was
  -- written with, if these are texts of one line, not empty, with no blanks at the ends.
  pub read_dropin-dropin_body : read_dropin (text (dropin_body expr delay)) ≡ (expr, delay)
  unfolding read_dropin
  read_dropin-dropin_body =
      ap (dropin_lines ([], [])) split_lines-dropin_body ∙ dropin_lines-body_lines
