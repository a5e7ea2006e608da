-- ===== src/Services/ArchiveConfig/Saved.antt =====
-- What `_write_back` writes, `_read` reads.
use snapshot_drive.Prelude.{
  ◌⊎◌, false, err, ◌≡◌, refl, sym, ap, ◌∙◌, true, not, ◌&&◌, ◌==◌, none, some, [], ◌∷◌, arith, All,
  Bool-cases, inl, inr, ok, ok_injective, subst,
}
use snapshot_drive.Prelude.Chars.{unbroken, Chars, same, same_iff, is_blank, split_lines}
use snapshot_drive.Prelude.Chars.Lines.{IsLine, split_lines-IsLine}
use snapshot_drive.Prelude.Chars.Spans.{every-append, every_weaken}
use snapshot_drive.Prelude.Chars.Scan.{every}
use snapshot_drive.Services.ArchiveConfig.Lines.{in_name, read_conf, read_lines, show_line, is_name}
use snapshot_drive.Services.ArchiveConfig.Lines.Shown.{
  no_quote, is_name-every, reads-show_line, local_conf, lookup-read_lines,
}
use snapshot_drive.Services.ArchiveConfig.{
  Ending, answered, os_error, Updates, World, new_text, write_file, put_text, write_back,
}
use snapshot_drive.Services.ArchiveConfig.Values.{Raised}
use snapshot_drive.Prelude.{Result}
use snapshot_drive.Services.ConfFile.{
  File, missing, unreadable, text, lookup, are_keys, is_key, AreShown, rewrite_lines, trimmed_text,
}
use snapshot_drive.Services.ConfFile.Joined.{latest-trimmed_text}
use snapshot_drive.Services.ConfFile.Latest.{
  latest-rewrite_lines, latest-rewrite_lines_other, rewrite_lines-IsLine,
}

-- A value that one line can hold between double quotes.
pub record IsValue (v : Chars) : Type 0 where
  pub plain : no_quote v ≡ true
  pub one_line : IsLine v

-- Updates as the setters make them: different names in capitals, with such values.
abbrev pub AreValues : Updates → Type 0
AreValues [] = Unit
AreValues ((k, v) ∷ ups) = ((is_name k ≡ true) × IsValue v) × AreValues ups

AreValues-AreShown : (ups : Updates) → AreValues ups → AreShown local_conf ups
AreValues-AreShown [] h = tt
AreValues-AreShown ((k, v) ∷ ups) h =
    (reads-show_line k v h.0.0 h.0.1.plain, AreValues-AreShown ups h.1)

show_line-IsLine : (k v : Chars) → is_name k ≡ true → IsLine v → IsLine (show_line k v)
unfolding show_line every
show_line-IsLine k v name one_line =
    every-append unbroken k _
      (every_weaken in_name unbroken k (λ c h. ground arith) (is_name-every k name))
      (every-append unbroken v (b'"' ∷ []) one_line refl)

AreValues-IsLine :
    (ups : Updates) → AreValues ups → All (λ (u : Chars × Chars). IsLine (show_line u.0 u.1)) ups
AreValues-IsLine [] h = tt
AreValues-IsLine ((k, v) ∷ ups) h =
    (show_line-IsLine k v h.0.0 h.0.1.one_line, AreValues-IsLine ups h.1)

is_name-is_key : (k : Chars) → is_name k ≡ true → is_key k ≡ true
is_name-is_key k name =
    every_weaken in_name (λ c. not (is_blank c) && not (c == b'=')) k (λ c h. ground arith)
      (is_name-every k name)

AreValues-lookup :
    (ups : Updates) (k : Chars) {v : Chars}
    → AreValues ups
    → lookup k ups ≡ some v
    → is_name k ≡ true
unfolding lookup
AreValues-lookup [] k h e = cc
AreValues-lookup ((j, w) ∷ ups) k {v} h e = elim (Bool-cases (same j k)) [
  | inl is ↦ rw (← (same_iff j k).0 is) h.0.0
  | inr other ↦ AreValues-lookup ups k {v = v} h.1 (rw other at e)
]

-- the text of a file that `_write_back` can read
abbrev pub text_in : File → Chars
text_in missing = []
text_in unreadable = []
text_in (text s) = s

module _ (ups : Updates) (keys : are_keys ups ≡ true) (values : AreValues ups) (k old : Chars) where
  lookup-new_text :
      {v : Chars} → lookup k ups ≡ some v → lookup k (read_conf (text (new_text ups old))) ≡ some v
  unfolding read_conf new_text lookup
  lookup-new_text {v} here =
      let lines = split_lines old in
      let name = AreValues-lookup ups k {v = v} values here in
      lookup-read_lines k [] (split_lines (trimmed_text (rewrite_lines show_line ups lines)))
      ∙ latest-trimmed_text local_conf k (is_name-is_key k name) (rewrite_lines show_line ups lines)
          none
          (rewrite_lines-IsLine show_line ups (AreValues-IsLine ups values) lines
            (split_lines-IsLine old))
      ∙ latest-rewrite_lines local_conf ups keys (AreValues-AreShown ups values) k none lines
          {v = v} here

  lookup-new_text_other :
      lookup k ups ≡ none
      → is_key k ≡ true
      → lookup k (read_conf (text (new_text ups old))) ≡ lookup k (read_conf (text old))
  unfolding read_conf new_text lookup
  lookup-new_text_other gone key =
      let lines = split_lines old in
      lookup-read_lines k [] (split_lines (trimmed_text (rewrite_lines show_line ups lines)))
      ∙ latest-trimmed_text local_conf k key (rewrite_lines show_line ups lines) none (
          rewrite_lines-IsLine show_line ups (AreValues-IsLine ups values) lines
            (split_lines-IsLine old))
      ∙ latest-rewrite_lines_other local_conf ups keys (AreValues-AreShown ups values) k none lines
          gone key
      ∙ sym (lookup-read_lines k [] lines)

-- What a write leaves: the memory as it was, in the file every name of the updates with its value,
-- and every other key with the value that it had.
pub record IsSaved (ups : Updates) (w w' : World) : Type 0 where
  pub memory : w'.memory ≡ w.memory
  pub written : (k v : Chars) → lookup k ups ≡ some v → lookup k (read_conf w'.conf) ≡ some v
  pub kept :
      (k : Chars)
      → lookup k ups ≡ none
      → is_key k ≡ true
      → lookup k (read_conf w'.conf) ≡ lookup k (read_conf w.conf)

read_conf-empty : read_conf (text []) ≡ read_conf missing
unfolding read_conf read_lines split_lines
read_conf-empty = refl

module _ (ups : Updates) (keys : are_keys ups ≡ true) (values : AreValues ups) (w : World) where
  put_text-IsSaved :
      (old : Chars) {w' : World}
      → ((k : Chars) → lookup k (read_conf (text old)) ≡ lookup k (read_conf w.conf))
      → put_text ups w old ≡ ok w'
      → IsSaved ups w w'
  put_text-IsSaved old {w'} same_file e = elim (Bool-cases w.writable) [
    | inr refused ↦ let no_file = rw refused at e in cc
    | inl allowed ↦ subst (IsSaved ups w) (ok_injective (rw allowed at e)) (record {
      memory = refl;
      written = λ k v here. lookup-new_text ups keys values k old {v = v} here;
      kept = λ k gone key. lookup-new_text_other ups keys values k old gone key ∙ same_file k;
    })
  ]

  write_file-IsSaved :
      (f : File) {w' : World} → w.conf ≡ f → write_file ups w f ≡ ok w' → IsSaved ups w w'
  write_file-IsSaved missing {w'} is e =
      put_text-IsSaved [] {w' = w'}
        (λ k. ap (lookup k) read_conf-empty ∙ ap (λ f. lookup k (read_conf f)) (sym is)) e
  write_file-IsSaved unreadable is e = cc
  write_file-IsSaved (text old) {w'} is e =
      put_text-IsSaved old {w' = w'} (λ k. ap (λ f. lookup k (read_conf f)) (sym is)) e

  -- A write of checked updates that does not raise saves them.
  pub write_back-IsSaved : {w' : World} → write_back ups w ≡ ok w' → IsSaved ups w w'
  unfolding write_back
  write_back-IsSaved {w'} = write_file-IsSaved w.conf {w' = w'} refl

  write_file-total :
      (f : File)
      → ((write_file ups w f ≡ err os_error) × ((w.writable ≡ false) ⊎ (f ≡ unreadable)))
        ⊎ ((w' : World) × (write_file ups w f ≡ ok w'))
  write_file-total missing = elim (Bool-cases w.writable) [
    | inl may ↦ inr (record w { conf = text (new_text ups []) }, rw may refl)
    | inr barred ↦ inl (rw barred refl, inl barred)
  ]
  write_file-total unreadable = inl (refl, inr refl)
  write_file-total (text old) = elim (Bool-cases w.writable) [
    | inl may ↦ inr (record w { conf = text (new_text ups old) }, rw may refl)
    | inr barred ↦ inl (rw barred refl, inl barred)
  ]

  -- A write of updates with different names in capitals and values of one line without double
  -- quotes either raises, and then the file cannot be written or cannot be read; or it leaves a
  -- file in which each of those names reads as its value and every other key as it did before,
  -- whatever the file held, and the memory as it was.
  pub write_back_lem :
      ((write_back ups w ≡ err os_error) × ((w.writable ≡ false) ⊎ (w.conf ≡ unreadable)))
      ⊎ ((w' : World) × (write_back ups w ≡ ok w') × IsSaved ups w w')
  unfolding write_back
  write_back_lem = elim (write_file-total w.conf) [
    | inl raised ↦ inl raised
    | inr (w', written) ↦ inr (w', written, write_back-IsSaved {w' = w'} written)
  ]

-- How a setter ends that answers with a getter: it raised and left all as it was, or it wrote,
-- the predicate holds of what it left, and it ends as the getter does there.
abbrev pub IsEnding :
    {A : Type 0} → (World → Result Raised A) → (World → Type 0) → World → Ending A → Type 0
IsEnding get P w (r, w') = ((e : Raised) × (r ≡ err e) × (w' ≡ w)) ⊎ ((r ≡ get w') × P w')

pub answered-IsEnding :
    {A : Type 0} (get : World → Result Raised A) (P : World → Type 0) (w : World)
    (stored : Result Raised World)
    → ((w' : World) → stored ≡ ok w' → P w')
    → IsEnding get P w (answered get w stored)
answered-IsEnding get P w (err e) h = inl (e, refl, refl)
answered-IsEnding get P w (ok w') h = inr (refl, h w' refl)
