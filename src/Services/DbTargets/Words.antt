-- ===== src/Services/DbTargets/Words.antt =====
-- Words: what is joined by blanks is split into the same words.
use snapshot_drive.Prelude.{
  ℕ, ◌≡◌, ◌≢◌, refl, ap, ◌∙◌, true, false, not, List, [], ◌∷◌, ◌++◌, All, arith, Bool,
}
use snapshot_drive.Prelude.Chars.{Chars, is_blank, lstrip, rstrip, strip}
use snapshot_drive.Prelude.Chars.Blanks.{lstrip_cons, rstrip-append}
use snapshot_drive.Prelude.Chars.Scan.{every}
use snapshot_drive.Services.ArchiveConfig.Values.{split_words, join_words}

abbrev pub letter : ℕ → Bool
letter c = not (is_blank c)

-- one or more characters that are is_c blanks
abbrev pub IsWord : Chars → Type 0
IsWord w = (w ≢ []) × (every letter w ≡ true)

rstrip-letters : (w : Chars) → every letter w ≡ true → rstrip w ≡ w
unfolding rstrip every
rstrip-letters [] h = refl
rstrip-letters (c ∷ []) h = let is_c : is_blank c ≡ false = ground arith in rw is_c refl
rstrip-letters (c ∷ d ∷ w) h = rw (rstrip-letters (d ∷ w) (ground arith)) refl

pub strip-letters : (w : Chars) → every letter w ≡ true → strip w ≡ w
unfolding strip lstrip every
strip-letters [] h = rstrip-letters [] h
strip-letters (c ∷ w) h =
    let is_c : is_blank c ≡ false = ground arith in rw is_c (rstrip-letters (c ∷ w) h)

-- a letter in front of the first word
abbrev onto_word : ℕ → List Chars → List Chars
onto_word c [] = (c ∷ []) ∷ []
onto_word c (w ∷ ws) = (c ∷ w) ∷ ws

split_words-letter :
    (c d : ℕ) (s : Chars)
    → is_blank c ≡ false
    → is_blank d ≡ false
    → split_words (c ∷ d ∷ s) ≡ onto_word c (split_words (d ∷ s))
unfolding split_words
split_words-letter c d s is_c is_d = rw is_c (rw is_d refl)

split_words_single : (c : ℕ) → is_blank c ≡ false → split_words (c ∷ []) ≡ (c ∷ []) ∷ []
unfolding split_words
split_words_single c is_c = rw is_c refl

split_words_before :
    (c : ℕ) (rest : Chars)
    → is_blank c ≡ false
    → split_words (c ∷ 32 ∷ rest) ≡ (c ∷ []) ∷ split_words rest
unfolding split_words
split_words_before c rest is_c = rw is_c refl

split_words-last :
    (c : ℕ) (w : Chars) → every letter (c ∷ w) ≡ true → split_words (c ∷ w) ≡ (c ∷ w) ∷ []
unfolding every
split_words-last c [] h = split_words_single c (ground arith)
split_words-last c (d ∷ w) h =
    split_words-letter c d w (ground arith) (ground arith)
    ∙ ap (onto_word c) (split_words-last d w (ground arith))

split_words-word :
    (c : ℕ) (w rest : Chars)
    → every letter (c ∷ w) ≡ true
    → split_words (c ∷ (w ++ (32 ∷ rest))) ≡ (c ∷ w) ∷ split_words rest
unfolding every
split_words-word c [] rest h = split_words_before c rest (ground arith)
split_words-word c (d ∷ w) rest h =
    split_words-letter c d (w ++ (32 ∷ rest)) (ground arith) (ground arith)
    ∙ ap (onto_word c) (split_words-word d w rest (ground arith))

pub split_words-join_words : (ws : List Chars) → All IsWord ws → split_words (join_words ws) ≡ ws
unfolding split_words join_words
split_words-join_words [] h = refl
split_words-join_words ([] ∷ ws) h = absurd (h.0.0 refl)
split_words-join_words ((c ∷ w) ∷ []) h = split_words-last c w h.0.1
split_words-join_words ((c ∷ w) ∷ x ∷ ws) h =
    split_words-word c w (join_words (x ∷ ws)) h.0.1
    ∙ ap (◌∷◌ (c ∷ w)) (split_words-join_words (x ∷ ws) h.1)

rstrip-blank : (s : Chars) → s ≢ [] → rstrip s ≡ s → rstrip (32 ∷ s) ≡ 32 ∷ s
unfolding rstrip
rstrip-blank [] some_text h = absurd (some_text refl)
rstrip-blank (c ∷ s) some_text h = rw h refl

join_words-nil : (w : Chars) (ws : List Chars) → w ≢ [] → join_words (w ∷ ws) ≢ []
unfolding join_words
join_words-nil [] ws some_text e = some_text refl
join_words-nil (c ∷ w) [] some_text e = cc
join_words-nil (c ∷ w) (x ∷ ws) some_text e = cc

rstrip-join_words : (ws : List Chars) → All IsWord ws → rstrip (join_words ws) ≡ join_words ws
unfolding join_words rstrip
rstrip-join_words [] h = refl
rstrip-join_words (w ∷ []) h = rstrip-letters w h.0.1
rstrip-join_words (w ∷ x ∷ ws) h = rstrip-append w 32 (join_words (x ∷ ws)) (
    rstrip-blank (join_words (x ∷ ws)) (join_words-nil x ws h.1.0.0)
      (rstrip-join_words (x ∷ ws) h.1))

lstrip-join_words : (ws : List Chars) → All IsWord ws → lstrip (join_words ws) ≡ join_words ws
unfolding join_words lstrip every
lstrip-join_words [] h = refl
lstrip-join_words ([] ∷ ws) h = absurd (h.0.0 refl)
lstrip-join_words ((c ∷ w) ∷ []) h = lstrip_cons c w (let l = h.0.1 in ground arith)
lstrip-join_words ((c ∷ w) ∷ x ∷ ws) h =
    lstrip_cons c (w ++ (32 ∷ join_words (x ∷ ws))) (let l = h.0.1 in ground arith)

pub strip-join_words : (ws : List Chars) → All IsWord ws → strip (join_words ws) ≡ join_words ws
unfolding strip
strip-join_words ws h = rw (lstrip-join_words ws h) (rstrip-join_words ws h)
