-- ===== src/Services/ConfFile/Joined.antt =====
-- The two ways in which the program writes the lines of a configuration file, and that the file
-- gives the values which the lines give.
use mathlib.Core.List.{append_assoc}
use snapshot_drive.Prelude.{
  ◌≡◌, refl, sym, ap, ◌∙◌, true, false, Option, none, List, [], ◌∷◌, ◌++◌, All, ◌⊎◌, Bool-cases,
  arith, inl, inr, ℕ, if◌then◌else◌,
}
use snapshot_drive.Prelude.Chars.Blanks.{rstrip-append_blank, rstrip-append_text}
use snapshot_drive.Prelude.Chars.Lines.{IsLine, split_lines-line, split_lines-last, rstrip-IsLine}
use snapshot_drive.Prelude.Chars.{Chars, rstrip, join_lines, split_lines, lstrip}
use snapshot_drive.Prelude.Chars.Scan.{literal, every}
use snapshot_drive.Services.ConfFile.Rewritten.{reads_none}
use snapshot_drive.Services.ConfFile.{
  Format, later, latest, is_key, assigns, assigned, trimmed_text, closed_text, ends_line,
}

Chars-cases : (s : Chars) → (s ≡ []) ⊎ ((c : ℕ) × (t : Chars) × (s ≡ c ∷ t))
Chars-cases [] = inl refl
Chars-cases (c ∷ t) = inr (c, t, refl)

assigns_empty : (k : Chars) → assigns k [] ≡ false
unfolding assigns assigned literal lstrip
assigns_empty [] = refl
assigns_empty (c ∷ k) = refl

ends_line-append : (s : Chars) (d : ℕ) (t : Chars) → ends_line (s ++ (d ∷ t)) ≡ ends_line (d ∷ t)
unfolding ends_line
ends_line-append [] d t = refl
ends_line-append (c ∷ []) d t = refl
ends_line-append (c ∷ e ∷ s) d t = ends_line-append (e ∷ s) d t

-- what `closed_text` makes of a text
abbrev close : Chars → Chars
close s = if ends_line s then s else s ++ (10 ∷ [])

close-append : (s : Chars) (d : ℕ) (t : Chars) → close (s ++ (d ∷ t)) ≡ s ++ close (d ∷ t)
close-append s d t = rw ends_line-append (elim (Bool-cases (ends_line (d ∷ t))) [
  | inl e ↦ rw e refl
  | inr e ↦ rw e (append_assoc s (d ∷ t) (10 ∷ []))
])

IsLine-ends_line : (l : Chars) → IsLine l → ends_line l ≡ false
unfolding ends_line every
IsLine-ends_line [] h = refl
IsLine-ends_line (c ∷ []) h = ground arith
IsLine-ends_line (c ∷ d ∷ l) h = IsLine-ends_line (d ∷ l) (ground arith)

module _ {V W : Type 0} (f : Format V W) (j : Chars) (key : is_key j ≡ true) where
  reads_empty : f.reads j [] ≡ none
  reads_empty = reads_none f j [] key (assigns_empty j)

  latest_one :
      (l : Chars) (found : Option W)
      → IsLine l
      → latest f j found (split_lines (rstrip l ++ (10 ∷ []))) ≡ later found (f.reads j l)
  unfolding latest
  latest_one l found h =
      ap (latest f j found) (split_lines-last (rstrip l) (rstrip-IsLine l h))
      ∙ ap (later found) (f.reads_rstrip j l)

  -- the file of one empty line
  latest_blank : (found : Option W) → latest f j found (split_lines (10 ∷ [])) ≡ found
  unfolding latest split_lines
  latest_blank found = ap (later found) reads_empty

  -- Blanks at the end of the file carry no value.
  pub latest-trimmed_text :
      (ls : List Chars) (found : Option W)
      → All IsLine ls
      → latest f j found (split_lines (trimmed_text ls)) ≡ latest f j found ls
  unfolding trimmed_text join_lines latest
  latest-trimmed_text [] found h = unfold rstrip in latest_blank found
  latest-trimmed_text (l ∷ []) found h = latest_one l found h.0
  latest-trimmed_text (l ∷ m ∷ ls) found h =
      let ih = λ (start : Option W). latest-trimmed_text (m ∷ ls) start h.1 in
      elim (Chars-cases (rstrip (join_lines (m ∷ ls)))) [
        | inl blank ↦
            ap (λ s. latest f j found (split_lines (s ++ (10 ∷ []))))
              (rstrip-append_blank l (10 ∷ join_lines (m ∷ ls)) (unfold rstrip in rw blank refl))
            ∙ latest_one l found h.0
            ∙ sym (latest_blank _)
            ∙ ap (λ s. latest f j (later found (f.reads j l)) (split_lines (s ++ (10 ∷ []))))
                (sym blank)
            ∙ ih (later found (f.reads j l))
        | inr (d, t, more) ↦
            ap (λ s. latest f j found (split_lines (s ++ (10 ∷ []))))
              (rstrip-append_text l (10 ∷ join_lines (m ∷ ls)) {d = 10} {u = d ∷ t}
                (unfold rstrip in rw more refl))
            ∙ ap (λ s. latest f j found (split_lines s)) (append_assoc l (10 ∷ d ∷ t) (10 ∷ []))
            ∙ ap (latest f j found) (split_lines-line l ((d ∷ t) ++ (10 ∷ [])) h.0)
            ∙ ap (λ s. latest f j (later found (f.reads j l)) (split_lines (s ++ (10 ∷ []))))
                (sym more)
            ∙ ih (later found (f.reads j l))
      ]

  -- The line feed at the end carries no value, and nothing is lost where one is there.
  pub latest-closed_text :
      (ls : List Chars) (found : Option W)
      → All IsLine ls
      → latest f j found (split_lines (closed_text ls)) ≡ latest f j found ls
  unfolding closed_text join_lines latest
  latest-closed_text [] found h = unfold ends_line in latest_blank found
  latest-closed_text (l ∷ []) found h =
      rw (IsLine-ends_line l h.0) (ap (latest f j found) (split_lines-last l h.0))
  latest-closed_text (l ∷ m ∷ ls) found h =
      let ih = latest-closed_text (m ∷ ls) (later found (f.reads j l)) h.1 in
      elim (Chars-cases (join_lines (m ∷ ls))) [
        | inl blank ↦
            ap (λ s. latest f j found (split_lines (close (l ++ (10 ∷ s))))) blank
            ∙ ap (λ s. latest f j found (split_lines s)) (close-append l 10 [])
            ∙ ap (latest f j found) (unfold ends_line in split_lines-last l h.0)
            ∙ sym (unfold ends_line in latest_blank (later found (f.reads j l)))
            ∙ ap (λ s. latest f j (later found (f.reads j l)) (split_lines (close s))) (sym blank)
            ∙ ih
        | inr (d, t, more) ↦
            ap (λ s. latest f j found (split_lines (close (l ++ (10 ∷ s))))) more
            ∙ ap (λ s. latest f j found (split_lines s))
                (close-append l 10 (d ∷ t) ∙ ap (λ s. l ++ s) (close-append (10 ∷ []) d t))
            ∙ ap (latest f j found) (split_lines-line l (close (d ∷ t)) h.0)
            ∙ ap (λ s. latest f j (later found (f.reads j l)) (split_lines (close s))) (sym more)
            ∙ ih
      ]
