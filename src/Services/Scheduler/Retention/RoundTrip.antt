-- ===== src/Services/Scheduler/Retention/RoundTrip.antt =====
-- What `set_retention` writes, `get_retention` reads.
use mathlib.Core.List.{append_assoc}
use snapshot_drive.Prelude.{
  ℕ, ◌≡◌, refl, sym, ap, ◌∙◌, Bool, true, false, not, ◌&&◌, ◌==◌, Option, none, some, List, [], ◌∷◌,
  ◌++◌, arith, All, Bool-cases, Option-cases, inl, inr, is_some,
}
use snapshot_drive.Prelude.Chars.{
  unbroken, Chars, chars, strip, lstrip, rstrip, split_lines, decimal, is_blank, is_break, is_digit,
}
use snapshot_drive.Prelude.Chars.Blanks.{lstrip_cons, strip-rstrip, literal-append, strip-literal}
use snapshot_drive.Prelude.Chars.Decimals.{
  maybe-decimal, number-decimal, decimal-ne-nil, rstrip-decimal,
}
use snapshot_drive.Prelude.Chars.Lines.{IsLine, split_lines-IsLine}
use snapshot_drive.Prelude.Chars.Scan.{literal, number, maybe, every}
use snapshot_drive.Prelude.Chars.Spans.{every-append, every_weaken, every-decimal}
use snapshot_drive.Services.ArchiveConfig.Lines.Shown.{assigned-strip}
use snapshot_drive.Services.ConfFile.{
  text, lookup, are_keys, is_key, assigned, assigns, at_equals, Format, AreShown, later, latest,
  rewrite_lines, closed_text,
}
use snapshot_drive.Services.ConfFile.Joined.{latest-closed_text}
use snapshot_drive.Services.ConfFile.Latest.{
  latest-rewrite_lines, latest-rewrite_lines_other, rewrite_lines-IsLine,
}
use snapshot_drive.Services.Scheduler.Retention.{
  retention_value, number_end, after_equals_sign, after_key, or_number, retention_in, get_retention,
  show_retention, retention_text,
}

-- A key of the file: letters, digits and underscores, not none.
abbrev pub is_word : Chars → Bool
is_word [] = false
is_word (c ∷ k) =
    every (λ x. not (is_blank x) && not (x == b'=')) (c ∷ k)
    && every (λ x. not (is_break x)) (c ∷ k)

lstrip-decimal : (n : ℕ) → lstrip (decimal n) ≡ decimal n
lstrip-decimal n = front (decimal n) (every-decimal n)
  where
    front : (s : Chars) → every is_digit s ≡ true → lstrip s ≡ s
    front [] h = unfold lstrip in refl
    front (c ∷ s) h = lstrip_cons c s (unfold every in ground arith)

strip-show_retention :
    (k : Chars) (n : ℕ) → is_word k ≡ true → strip (show_retention k n) ≡ show_retention k n
unfolding show_retention every
strip-show_retention [] n h = cc
strip-show_retention (c ∷ k) n h =
    ap (λ s. strip (c ∷ s)) (sym (append_assoc k (b'=' ∷ []) (decimal n)))
    ∙ strip-literal c (k ++ (b'=' ∷ [])) (decimal n) (ground arith) (decimal-ne-nil n)
        (rstrip-decimal n)
    ∙ ap (λ s. c ∷ s) (append_assoc k (b'=' ∷ []) (decimal n))

retention_value-show_retention :
    (k : Chars) (n : ℕ) → is_word k ≡ true → retention_value k (show_retention k n) ≡ some n
unfolding retention_value literal show_retention lstrip
retention_value-show_retention k n h =
    ap (λ s. after_key (literal k s)) (strip-show_retention k n h)
    ∙ ap after_key (literal-append k (b'=' ∷ decimal n))
    ∙ ap (λ s. after_equals_sign (literal (chars "=") s)) (lstrip_cons b'=' (decimal n) refl)
    ∙ ap (λ s. number_end (number (maybe b'"' s))) (lstrip-decimal n)
    ∙ ap (λ s. number_end (number s)) (maybe-decimal b'"' n refl)
    ∙ ap number_end (number-decimal n)

-- The number that a line gives stands behind the key and an equals sign.
reads_assigns :
    (k line : Chars)
    → is_key k ≡ true
    → is_some (retention_value k line) ≡ true
    → assigns k line ≡ true
unfolding retention_value assigned literal
reads_assigns k line key h = assigned-strip k line (elim (Option-cases (literal k (strip line))) [
  | inl miss ↦ let no_key = rw miss at h in cc
  | inr (r, hit) ↦ rw hit (sign (lstrip r) (rw hit at h))
])
  where
    sign :
        (s : Chars)
        → is_some (after_equals_sign (literal (chars "=") s)) ≡ true
        → at_equals s ≡ true
    sign [] e = cc
    sign (c ∷ s) e = elim (Bool-cases (b'=' == c)) [
      | inl is ↦ ground arith
      | inr other ↦ let no_sign = rw other at e in cc
    ]

reads_rstrip : (k line : Chars) → retention_value k (rstrip line) ≡ retention_value k line
unfolding retention_value
reads_rstrip k line = ap (λ s. after_key (literal k s)) (strip-rstrip line)

-- The lines of snapshot.conf.
abbrev retention_conf : Format ℕ ℕ
retention_conf = record {
  show = show_retention;
  value = λ n. n;
  reads = retention_value;
  reads_rstrip = reads_rstrip;
  reads_assigns = reads_assigns;
}

retention_in-latest :
    (k : Chars) (found : Option ℕ) (lines : List Chars)
    → retention_in k (or_number 0 found) lines ≡ or_number 0 (latest retention_conf k found lines)
unfolding retention_in latest
retention_in-latest k found [] = refl
retention_in-latest k found (line ∷ lines) =
    ap (λ n. retention_in k n lines) (step found (retention_value k line))
    ∙ retention_in-latest k (later found (retention_value k line)) lines
  where
    step : (found o : Option ℕ) → or_number (or_number 0 found) o ≡ or_number 0 (later found o)
    step found none = refl
    step found (some n) = refl

abbrev pub AreWords : List (Chars × ℕ) → Type 0
AreWords [] = Unit
AreWords ((k, n) ∷ ups) = (is_word k ≡ true) × AreWords ups

AreWords-AreShown : (ups : List (Chars × ℕ)) → AreWords ups → AreShown retention_conf ups
AreWords-AreShown [] h = tt
AreWords-AreShown ((k, n) ∷ ups) h =
    (retention_value-show_retention k n h.0, AreWords-AreShown ups h.1)

show_retention-IsLine : (k : Chars) (n : ℕ) → is_word k ≡ true → IsLine (show_retention k n)
unfolding show_retention every
show_retention-IsLine [] n h = cc
show_retention-IsLine (c ∷ k) n h =
    every-append unbroken (c ∷ k) _ (ground arith)
      (every_weaken is_digit unbroken (decimal n) (λ x e. ground arith) (every-decimal n))

AreWords-IsLine :
    (ups : List (Chars × ℕ))
    → AreWords ups
    → All (λ (u : Chars × ℕ). IsLine (show_retention u.0 u.1)) ups
AreWords-IsLine [] h = tt
AreWords-IsLine ((k, n) ∷ ups) h = (show_retention-IsLine k n h.0, AreWords-IsLine ups h.1)

module _ (ups : List (Chars × ℕ)) (keys : are_keys ups ≡ true) (words : AreWords ups)
    (k old : Chars) (key : is_key k ≡ true) where
  abbrev kept_lines : List Chars
  kept_lines = rewrite_lines show_retention ups (split_lines old)

  get_retention-latest :
      get_retention (text (retention_text ups old)) k
      ≡ or_number 0 (latest retention_conf k none kept_lines)
  unfolding get_retention retention_text
  get_retention-latest =
      retention_in-latest k none (split_lines (closed_text kept_lines))
      ∙ ap (or_number 0) (
          latest-closed_text retention_conf k key kept_lines none (
            rewrite_lines-IsLine show_retention ups (AreWords-IsLine ups words) (split_lines old)
              (split_lines-IsLine old)))

  pub get_retention-written :
      {n : ℕ} → lookup k ups ≡ some n → get_retention (text (retention_text ups old)) k ≡ n
  get_retention-written {n} here =
      get_retention-latest
      ∙ ap (or_number 0) (
          latest-rewrite_lines retention_conf ups keys (AreWords-AreShown ups words) k none
            (split_lines old) {v = n} here)

  pub get_retention-kept :
      lookup k ups ≡ none
      → get_retention (text (retention_text ups old)) k ≡ get_retention (text old) k
  unfolding get_retention
  get_retention-kept gone =
      get_retention-latest
      ∙ ap (or_number 0) (
          latest-rewrite_lines_other retention_conf ups keys (AreWords-AreShown ups words) k none
            (split_lines old) gone key)
      ∙ sym (retention_in-latest k none (split_lines old))
