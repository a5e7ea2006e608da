-- ===== src/Services/ArchiveConfig/Lines/Shown.antt =====
-- A line that the program writes is read as what was written, and the format of the file.
use mathlib.Core.List.{append_assoc}
use snapshot_drive.Prelude.{
  ℕ, ◌≡◌, refl, sym, ap, ◌∙◌, subst, Bool, true, false, not, Option, none, some, List, [], ◌∷◌,
  ◌++◌, ◌==◌, is_some, arith, Bool-cases, Option-cases, inl, inr,
}
use snapshot_drive.Prelude.Chars.{
  Chars, same, same_iff, same_self, strip, lstrip, rstrip, is_blank, cons_stripped,
}
use snapshot_drive.Prelude.Chars.Blanks.{strip_between, lstrip_cons, strip-rstrip, literal-append}
use snapshot_drive.Prelude.Chars.Spans.{span_append}
use snapshot_drive.Prelude.Chars.Scan.{◌>>=◌, span, every, literal}
use snapshot_drive.Services.ArchiveConfig.Lines.{
  or_bare, at_close, quoted, in_name, is_name, entry, named, value_of, put_entry, read_line,
  read_lines, show_line,
}
use snapshot_drive.Services.ConfFile.{
  assigned, assigns, lookup, put, at_rest, is_key, Format, later, latest, at_equals,
}
use snapshot_drive.Services.ConfFile.Rewritten.{lookup-put}

-- what `vals.get(k)` finds in one line
abbrev reads : Chars → Chars → Option Chars
reads k line = lookup k (read_line [] line)

span-append :
    (test : ℕ → Bool) (s : Chars) (c : ℕ) (t : Chars)
    → every test s ≡ true
    → test c ≡ false
    → span test (s ++ (c ∷ t)) ≡ (s, c ∷ t)
unfolding span every
span-append test [] c t h stop = rw stop refl
span-append test (d ∷ s) c t h stop = elim (Bool-cases (test d)) [
  | inl e ↦ rw e (rw (span-append test s c t (rw e at h) stop) refl)
  | inr e ↦ let no_run = rw e at h in cc
]

pub is_name-every : (k : Chars) → is_name k ≡ true → every in_name k ≡ true
unfolding every
is_name-every [] h = cc
is_name-every (c ∷ k) h = ground arith

-- A value that can stand between double quotes.
abbrev pub no_quote : Chars → Bool
no_quote v = every (λ c. not (c == b'"')) v

quoted-shown : (v : Chars) → no_quote v ≡ true → quoted b'"' (v ++ (b'"' ∷ [])) ≡ some v
unfolding quoted lstrip
quoted-shown v h = ap at_close (span-append (λ c. not (c == b'"')) v b'"' [] h refl)

entry-show_line :
    (k v : Chars) → is_name k ≡ true → no_quote v ≡ true → entry (show_line k v) ≡ some (k, v)
unfolding entry show_line named value_of
entry-show_line k v name plain =
    rw (span-append in_name k b'=' (b'"' ∷ (v ++ (b'"' ∷ []))) (is_name-every k name) refl) (
      rw name (
        ap (λ o. ◌>>=◌ (or_bare o (b'"' ∷ (v ++ (b'"' ∷ [])))) (λ w. some (k, w)))
          (quoted-shown v plain)))

strip-show_line : (k v : Chars) → is_name k ≡ true → strip (show_line k v) ≡ show_line k v
unfolding show_line rstrip
strip-show_line [] v name = cc
strip-show_line (c ∷ k) v name =
    let letter : is_blank c ≡ false = ground arith in
    ap (λ s. strip (c ∷ s)) (sym (append_assoc k (b'=' ∷ b'"' ∷ v) (b'"' ∷ [])))
    ∙ strip_between c (k ++ (b'=' ∷ b'"' ∷ v)) b'"' [] letter refl
    ∙ ap (λ s. c ∷ s) (append_assoc k (b'=' ∷ b'"' ∷ v) (b'"' ∷ []))

pub reads-show_line :
    (k v : Chars) → is_name k ≡ true → no_quote v ≡ true → reads k (show_line k v) ≡ some v
unfolding read_line put lookup
reads-show_line k v name plain =
    ap (λ s. lookup k (put_entry [] (entry s))) (strip-show_line k v name)
    ∙ ap (λ e. lookup k (put_entry [] e)) (entry-show_line k v name plain)
    ∙ rw (same_self k) refl

abbrev at_some : Option Chars → Chars → Option Chars
at_some none t = none
at_some (some r) t = some (r ++ t)

-- What `\s*` drops at the end, kept.
rstrip_prefix : (s : Chars) → (t : Chars) × (s ≡ rstrip s ++ t)
unfolding rstrip
rstrip_prefix [] = ([], refl)
rstrip_prefix (c ∷ s) = let (t, e) = rstrip_prefix s in front (rstrip s) t e
  where
    front : (r t : Chars) → s ≡ r ++ t → (u : Chars) × (c ∷ s ≡ cons_stripped c r ++ u)
    front [] t e = elim (Bool-cases (is_blank c)) [
      | inl b ↦ (c ∷ t, rw b (ap (λ x. c ∷ x) e))
      | inr b ↦ (t, rw b (ap (λ x. c ∷ x) e))
    ]
    front (d ∷ r) t e = (t, ap (λ x. c ∷ x) e)

at_equals-append : (s t : Chars) → at_equals (lstrip s) ≡ true → at_equals (lstrip (s ++ t)) ≡ true
unfolding lstrip
at_equals-append [] t h = cc
at_equals-append (c ∷ s) t h = elim (Bool-cases (is_blank c)) [
  | inl b ↦ rw b (at_equals-append s t (rw b at h))
  | inr b ↦ rw b (rw b at h)
]

literal-append_right :
    (k s t : Chars) {r : Chars} → literal k s ≡ some r → literal k (s ++ t) ≡ some (r ++ t)
unfolding literal
literal-append_right [] s t h = ap (λ o. at_some o t) h
literal-append_right (d ∷ k) [] t h = cc
literal-append_right (d ∷ k) (c ∷ s) t {r} h = elim (Bool-cases (d == c)) [
  | inl e ↦ rw e (literal-append_right k s t {r = r} (rw e at h))
  | inr e ↦ let apart = rw e at h in cc
]

assigned-append : (k s t : Chars) → assigned k s ≡ true → assigned k (s ++ t) ≡ true
unfolding assigned
assigned-append k s t h = elim (Option-cases (literal k s)) [
  | inl miss ↦ let no_key = rw miss at h in cc
  | inr (r, hit) ↦
      ap at_rest (literal-append_right k s t {r = r} hit) ∙ at_equals-append r t (rw hit at h)
]

-- A key at the front of the stripped line is assigned by the line.
pub assigned-strip : (k line : Chars) → assigned k (strip line) ≡ true → assigns k line ≡ true
unfolding assigns strip
assigned-strip k line h =
    let (t, e) = rstrip_prefix (lstrip line) in
    subst (λ s. assigned k s ≡ true) (sym e) (assigned-append k (rstrip (lstrip line)) t h)

named-assigned :
    (name rest j : Chars) {v : Chars}
    → named name rest ≡ some (j, v)
    → (name ≡ j) × (assigned name (name ++ rest) ≡ true)
unfolding named assigned
named-assigned name [] j e = cc
named-assigned name (c ∷ r) j {v} e = elim (Bool-cases (c == b'=')) [
  | inr other ↦ let no_value = rw other at e in cc
  | inl is ↦ (
    own (value_of r) (rw is at e),
    ap at_rest (literal-append name (c ∷ r)) ∙ front (is_equals is),
  )
]
  where
    own :
        (o : Option Chars)
        → ◌>>=◌ {B = Chars × Chars} o (λ w. some (name, w)) ≡ some (j, v)
        → name ≡ j
    own none h = cc
    own (some w) h = cc

    is_equals : (c == b'=') ≡ true → c ≡ b'='
    is_equals h = ground arith

    front : c ≡ b'=' → at_equals (lstrip (c ∷ r)) ≡ true
    front h = rw h (rw (lstrip_cons b'=' r refl) refl)

entry-assigned : (s j : Chars) {v : Chars} → entry s ≡ some (j, v) → assigned j s ≡ true
unfolding entry
entry-assigned s j {v} e = elim (Bool-cases (is_name (span in_name s).0)) [
  | inr other ↦ let no_name = rw other at e in cc
  | inl name ↦
      let (own, hit) =
        named-assigned (span in_name s).0 (span in_name s).1 j {v = v} (rw name at e) in
      rw (← own) (rw (span_append in_name s) at hit)
]

pub reads_assigns :
    (k line : Chars) → is_key k ≡ true → is_some (reads k line) ≡ true → assigns k line ≡ true
unfolding read_line put lookup
reads_assigns k line key h = elim (Option-cases (entry (strip line))) [
  | inl empty ↦ let no_entry = rw empty at h in cc
  | inr ((j, v), found) ↦ elim (Bool-cases (same j k)) [
    | inr other ↦ let no_value = rw (found, other) at h in cc
    | inl is ↦
        let own = (same_iff j k).0 is in
        assigned-strip k line (rw (← own) (entry-assigned (strip line) j {v = v} found))
  ]
]

pub reads_rstrip :
    (k line : Chars) → lookup k (read_line [] (rstrip line)) ≡ lookup k (read_line [] line)
unfolding read_line
reads_rstrip k line = ap (λ s. lookup k (put_entry [] (entry s))) (strip-rstrip line)

-- The lines of snapshot.local.conf.
abbrev pub local_conf : Format Chars Chars
local_conf = record {
  show = show_line;
  value = λ v. v;
  reads = λ k line. lookup k (read_line [] line);
  reads_rstrip = reads_rstrip;
  reads_assigns = reads_assigns;
}

lookup-put_entry :
    (k : Chars) (found : List (Chars × Chars)) (o : Option (Chars × Chars))
    → lookup k (put_entry found o) ≡ later (lookup k found) (lookup k (put_entry [] o))
unfolding lookup put
lookup-put_entry k found none = refl
lookup-put_entry k found (some (j, v)) = lookup-put j k v found ∙ ground arith

-- What the loop of `_read` finds for a key is what the last line with it says.
pub lookup-read_lines :
    (k : Chars) (found : List (Chars × Chars)) (lines : List Chars)
    → lookup k (read_lines found lines) ≡ latest local_conf k (lookup k found) lines
unfolding read_lines latest read_line
lookup-read_lines k found [] = refl
lookup-read_lines k found (line ∷ lines) =
    lookup-read_lines k (put_entry found (entry (strip line))) lines
    ∙ ap (λ r. latest local_conf k r lines) (lookup-put_entry k found (entry (strip line)))
