-- ===== src/Prelude/Chars/Lines.antt =====
-- Texts of lines: splitting what was joined.
use mathlib.Core.List.{append_assoc}
use snapshot_drive.Prelude.{
  ℕ, ◌≡◌, refl, ap, ◌∙◌, true, false, not, List, [], ◌∷◌, ◌++◌, All, Bool-cases, inl, inr,
}
use snapshot_drive.Prelude.Chars.{
  Chars, is_blank, is_break, cons_stripped, rstrip, onto_first, split_lines, join_lines,
}
use snapshot_drive.Prelude.Chars.Scan.{every}

abbrev pub IsLine : Chars → Type 0
IsLine s = every (λ c. not (is_break c)) s ≡ true

pub split_lines-line :
    (l rest : Chars) → IsLine l → split_lines (l ++ (10 ∷ rest)) ≡ l ∷ split_lines rest
unfolding split_lines every
split_lines-line [] rest h = refl
split_lines-line (c ∷ l) rest h = elim (Bool-cases (is_break c)) [
  | inl b ↦ let no_line = rw b at h in cc
  | inr b ↦ rw b (ap (onto_first c) (split_lines-line l rest (rw b at h)))
]

onto_first-IsLine :
    (c : ℕ) (ls : List Chars) → is_break c ≡ false → All IsLine ls → All IsLine (onto_first c ls)
unfolding every
onto_first-IsLine c [] b h = (rw b refl, tt)
onto_first-IsLine c (l ∷ ls) b h = (rw b h.0, h.1)

-- Whatever a text is, its lines have no breaks.
pub split_lines-IsLine : (s : Chars) → All IsLine (split_lines s)
unfolding split_lines every
split_lines-IsLine [] = tt
split_lines-IsLine (c ∷ s) = elim (Bool-cases (is_break c)) [
  | inl b ↦ rw b (refl, split_lines-IsLine s)
  | inr b ↦ rw b (onto_first-IsLine c (split_lines s) b (split_lines-IsLine s))
]

pub split_lines-last : (l : Chars) → IsLine l → split_lines (l ++ (10 ∷ [])) ≡ l ∷ []
unfolding split_lines
split_lines-last l h = split_lines-line l [] h

pub split_lines-join_lines :
    (l : Chars) (ls : List Chars)
    → All IsLine (l ∷ ls)
    → split_lines (join_lines (l ∷ ls) ++ (10 ∷ [])) ≡ l ∷ ls
unfolding join_lines
split_lines-join_lines l [] h = split_lines-last l h.0
split_lines-join_lines l (m ∷ ls) h = rw append_assoc (
    split_lines-line l (join_lines (m ∷ ls) ++ (10 ∷ [])) h.0
    ∙ ap (◌∷◌ l) (split_lines-join_lines m ls h.1))

pub rstrip-IsLine : (s : Chars) → IsLine s → IsLine (rstrip s)
unfolding rstrip every
rstrip-IsLine [] h = refl
rstrip-IsLine (c ∷ s) h = elim (Bool-cases (is_break c)) [
  | inl b ↦ let no_line = rw b at h in cc
  | inr b ↦ front (rstrip s) b (rstrip-IsLine s (rw b at h))
]
  where
    front : (t : Chars) → is_break c ≡ false → IsLine t → IsLine (cons_stripped c t)
    front [] b k = elim (Bool-cases (is_blank c)) [ inl x ↦ rw x refl | inr x ↦ rw x (rw b refl) ]
    front (d ∷ t) b k = rw b k
