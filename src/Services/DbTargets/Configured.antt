-- ===== src/Services/DbTargets/Configured.antt =====
-- The parser of the databases reads what the setter of the databases has checked.
use mathlib.Core.List.{append_assoc}
use snapshot_drive.Prelude.{
  ◌≡◌, ◌≢◌, refl, sym, ap, ◌∙◌, true, false, not, Option-cases, Bool-cases, List, [], ◌∷◌, ◌++◌,
  ◌==◌, some, map, All, ok, arith, inl, inr, require-true, >>=-eq-ok, ◌⊎◌, subst, ok_injective,
}
use snapshot_drive.Prelude.Chars.{
  Chars, chars, same, same_iff, lstrip, rstrip, strip, lower, one_of,
}
use snapshot_drive.Prelude.Chars.Spans.{every_weaken, every-append}
use snapshot_drive.Prelude.Chars.Scan.{literal, every, span}
use snapshot_drive.Services.ArchiveConfig.Values.{
  in_label, split_words, is_target, check_targets, validate_targets, after_word,
}
use snapshot_drive.Services.ArchiveConfig.Values.{bad_target, duplicate}
use snapshot_drive.Prelude.{require}
use snapshot_drive.Services.DbTargets.{parse_target, parse_tokens, parse_targets}
use snapshot_drive.Services.DbTargets.Words.{
  letter, IsWord, strip-letters, split_words-join_words, strip-join_words,
}

-- A target that the setter takes: one of the engines, a colon and a name.
abbrev pub shown_target : Chars × Chars → Chars
shown_target (engine, dbname) = engine ++ (b':' ∷ dbname)

literal-some : (word s : Chars) {r : Chars} → literal word s ≡ some r → s ≡ word ++ r
unfolding literal
literal-some [] s h = cc
literal-some (k ∷ word) [] h = cc
literal-some (k ∷ word) (c ∷ s) h = elim (Bool-cases (k == c)) [
  | inl e ↦ let later = literal-some word s (rw e at h) in let is : k ≡ c = ground arith in cc
  | inr e ↦ let ends = rw e at h in cc
]

-- A token of the setter: an engine, a colon and a name.
abbrev IsEntry : Chars → Chars → Type 0
IsEntry engine t =
    (dbname : Chars) × (t ≡ shown_target (engine, dbname))
    × (dbname ≢ [])
    × (every in_label dbname ≡ true)

after_word-IsEntry :
    (engine t : Chars) → after_word (engine ++ (b':' ∷ [])) in_label t ≡ true → IsEntry engine t
after_word-IsEntry engine t h = elim (Option-cases (literal (engine ++ (b':' ∷ [])) t)) [
  | inl e ↦ let ends = rw (after_word, e) at h in cc
  | inr (dbname, e) ↦
      let taken = rw (after_word, e) at h in
      let test : same dbname [] ≡ false = ground arith in
      (
        dbname,
        literal-some (engine ++ (b':' ∷ [])) t e ∙ append_assoc engine (b':' ∷ []) dbname,
        (λ is. (let full = (same_iff dbname []).1 is in ground arith)),
        ground arith,
      )
]

is_target-IsEntry :
    (t : Chars)
    → is_target t ≡ true
    → IsEntry (chars "postgres") t ⊎ IsEntry (chars "mysql") t ⊎ IsEntry (chars "mongo") t
unfolding is_target
is_target-IsEntry t h = elim (Bool-cases (after_word (chars "postgres:") in_label t)) [
  | inl e ↦ inl (after_word-IsEntry (chars "postgres") t e)
  | inr e ↦ elim (Bool-cases (after_word (chars "mysql:") in_label t)) [
    | inl e' ↦ inr (inl (after_word-IsEntry (chars "mysql") t e'))
    | inr e' ↦ inr (inr (after_word-IsEntry (chars "mongo") t (rw e' at (rw e at h))))
  ]
]

-- A word that is read as a target.
abbrev Reads : Chars → Type 0
Reads t =
    IsWord t × (target : Chars × Chars) × (parse_target t ≡ ok target) × (t ≡ shown_target target)

not_same : (s : Chars) → s ≢ [] → same s [] ≡ false
unfolding same
not_same [] some_text = absurd (some_text refl)
not_same (c ∷ s) some_text = refl

shown_target-IsWord :
    (engine dbname : Chars)
    → IsWord engine
    → every letter dbname ≡ true
    → IsWord (shown_target (engine, dbname))
unfolding every
shown_target-IsWord [] dbname h codes = absurd (h.0 refl)
shown_target-IsWord (c ∷ engine) dbname h codes =
    ((λ e. cc), every-append letter (c ∷ engine) (b':' ∷ dbname) h.1 codes)

entry-Reads :
    (engine t : Chars)
    → IsWord engine
    → ((dbname : Chars)
        → strip dbname ≡ dbname
        → same dbname [] ≡ false
        → every in_label dbname ≡ true
        → parse_target (shown_target (engine, dbname)) ≡ ok (engine, dbname))
    → IsEntry engine t
    → Reads t
entry-Reads engine t word parses (dbname, is, some_text, codes) =
    let letters = every_weaken in_label letter dbname (λ c e. ground arith) codes in
    (
      subst IsWord (sym is) (shown_target-IsWord engine dbname word letters),
      (engine, dbname),
      ap parse_target is
          ∙ parses dbname (strip-letters dbname letters) (not_same dbname some_text) codes,
      is,
    )

is_target-Reads : (t : Chars) → is_target t ≡ true → Reads t
unfolding parse_target every span lower strip lstrip rstrip one_of same
is_target-Reads t h = elim (is_target-IsEntry t h) [
  | inl e ↦
      entry-Reads (chars "postgres") t ((λ x. cc), refl)
        (λ d trimmed full codes. rw trimmed (rw full (rw codes refl))) e
  | inr (inl e) ↦
      entry-Reads (chars "mysql") t ((λ x. cc), refl)
        (λ d trimmed full codes. rw trimmed (rw full (rw codes refl))) e
  | inr (inr e) ↦
      entry-Reads (chars "mongo") t ((λ x. cc), refl)
        (λ d trimmed full codes. rw trimmed (rw full (rw codes refl))) e
]

check_targets-Reads :
    (seen tokens : List Chars) → check_targets seen tokens ≡ ok tt → All Reads tokens
unfolding check_targets
check_targets-Reads seen [] h = tt
check_targets-Reads seen (t ∷ tokens) h =
    let (u1, known, r1) = >>=-eq-ok (require (is_target t) bad_target) _ h in
    let (u2, fresh, r2) = >>=-eq-ok (require (not (one_of t seen)) duplicate) _ r1 in
    (is_target-Reads t (require-true _ _ known), check_targets-Reads (t ∷ seen) tokens r2)

parse_tokens-Reads :
    (tokens : List Chars)
    → All Reads tokens
    → (ts : List (Chars × Chars)) × (parse_tokens tokens ≡ ok ts) × (map shown_target ts ≡ tokens)
unfolding parse_tokens
parse_tokens-Reads [] all = ([], refl, refl)
parse_tokens-Reads (t ∷ tokens) ((word, target, parsed, is), all) =
    let (ts, more, same_tokens) = parse_tokens-Reads tokens all in
    (target ∷ ts, rw parsed (rw more refl), rw same_tokens (ap (λ x. x ∷ tokens) (sym is)))

Reads-IsWord : (tokens : List Chars) → All Reads tokens → All IsWord tokens
Reads-IsWord [] all = tt
Reads-IsWord (t ∷ tokens) (r, all) = (r.0, Reads-IsWord tokens all)

-- What the setter of the databases takes and stores, the parser reads without an error, and the
-- targets that it returns, written as engine, colon and name, are the words that the form sent, in
-- their order.
pub validate_targets-parse_targets :
    (raw : Chars) {stored : Chars}
    → validate_targets raw ≡ ok stored
    → (ts : List (Chars × Chars)) × (parse_targets stored ≡ ok ts)
      × (map shown_target ts ≡ split_words (strip raw))
unfolding validate_targets parse_targets
validate_targets-parse_targets raw {stored} h =
    let tokens = split_words (strip raw) in
    let (u, checked, joined) = >>=-eq-ok (check_targets [] tokens) _ h in
    let all = check_targets-Reads [] tokens checked in
    let words = Reads-IsWord tokens all in
    let back : split_words (strip stored) ≡ tokens =
      ap (λ x. split_words (strip x)) (sym (ok_injective joined))
      ∙ ap split_words (strip-join_words tokens words)
      ∙ split_words-join_words tokens words in
    let (ts, parsed, shown) = parse_tokens-Reads tokens all in
    (ts, ap parse_tokens back ∙ parsed, shown)
