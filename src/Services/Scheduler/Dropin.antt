-- ===== src/Services/Scheduler/Dropin.antt =====
-- backend/services/scheduler.py: the drop-in file of a unit, and the answers of systemctl.
pub mod RoundTrip
use snapshot_drive.Prelude.{
  ℕ, not, ◌||◌, Option, none, some, List, [], ◌∷◌, ◌++◌, ◌==◌, if◌then◌else◌,
}
use snapshot_drive.Prelude.Chars.{Chars, chars, same, strip, or_else, split_lines}
use snapshot_drive.Prelude.Chars.Scan.{literal, span}
use snapshot_drive.Services.ConfFile.{File, missing, unreadable, text}

abbrev pub default_delay : Chars
default_delay = chars "30min"

-- one line, on the expression and the delay read so far
unfoldable pub dropin_line : Chars × Chars → Chars → Chars × Chars
dropin_line (oncal, delay) line = elim (literal (chars "OnCalendar=") line) [
  | some value ↦ (or_else (strip value) oncal, delay)
  | none ↦ elim (literal (chars "RandomizedDelaySec=") line) [
    | some value ↦ (oncal, strip value)
    | none ↦ (oncal, delay)
  ]
]

unfoldable pub dropin_lines : Chars × Chars → List Chars → Chars × Chars
dropin_lines found [] = found
dropin_lines found (line ∷ lines) = dropin_lines (dropin_line found (strip line)) lines

-- `_read_dropin_oncalendar`
unfoldable pub read_dropin : File → Chars × Chars
read_dropin missing = ([], [])
read_dropin unreadable = ([], [])
read_dropin (text s) = dropin_lines ([], []) (split_lines s)

-- the text that `_write_dropin` writes
unfoldable pub dropin_body : Chars → Chars → Chars
dropin_body oncalendar delay =
    chars "# Generado por snapshot-V3 (panel web)\n[Timer]\nOnCalendar=\nOnCalendar="
    ++ (oncalendar
        ++ (chars "\nRandomizedDelaySec="
            ++ (or_else delay default_delay ++ chars "\nPersistent=true\n")))

-- line.split("=", 1)[1], of a line that has an equals sign
unfoldable pub after_equals : Chars → Option Chars
after_equals [] = none
after_equals (c ∷ s) = let rest = after_equals s in if c == b'=' then some s else rest

-- the first line of `systemctl show` with a time
unfoldable pub next_time : List Chars → Option Chars
unfolding after_equals
next_time [] = none
next_time (line ∷ lines) =
    let rest = next_time lines in
    elim (after_equals line) [
      | none ↦ rest
      | some value ↦
          let v = strip value in
          if same v [] || same v (chars "n/a") || same v (chars "0") then rest else some v
    ]

-- `re.search(r"OnCalendar=([^;}]+?)\s*;", line)`, with the group stripped
unfoldable pub calendar_in : Chars → Option Chars
calendar_in [] = none
calendar_in (c ∷ s) =
    let later = calendar_in s in
    elim (literal (chars "OnCalendar=") (c ∷ s)) [
      | none ↦ later
      | some r ↦
          let (body, rest) = span (λ (x : ℕ). not (x == b';' || x == b'}')) r in
          elim rest [
            | [] ↦ later
            | stop ∷ more ↦
                if same body [] then later else if stop == b';' then some (strip body) else later
          ]
    ]

-- the last expression, not empty, of the lines of `TimersCalendar`
unfoldable pub effective : Chars → List Chars → Chars
unfolding calendar_in
effective last [] = last
effective last (line ∷ lines) =
    effective
      (elim (literal (chars "TimersCalendar=") line) [
        | none ↦ last
        | some shown ↦ elim (calendar_in line) [ none ↦ last | some expr ↦ or_else expr last ]
      ])
      lines
