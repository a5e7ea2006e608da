-- ===== src/Prelude/Chars/Blanks.antt =====
-- Stripping what begins and ends with no blank, and scanning past what a literal has written.
use snapshot_drive.Prelude.{
  ℕ, ◌≡◌, ◌≢◌, refl, ap, ◌∙◌, true, false, some, [], ◌∷◌, ◌++◌, inl, inr, Bool-cases, ==_self,
}
use snapshot_drive.Prelude.Chars.{Chars, is_blank, lstrip, cons_stripped, rstrip, strip}
use snapshot_drive.Prelude.Chars.Scan.{literal}

-- What ends with no blank keeps all that stands before.
pub rstrip-append :
    (s : Chars) (d : ℕ) (t : Chars) → rstrip (d ∷ t) ≡ d ∷ t → rstrip (s ++ (d ∷ t)) ≡ s ++ (d ∷ t)
unfolding rstrip
rstrip-append [] d t h = h
rstrip-append (c ∷ []) d t h = rw (rstrip-append [] d t h) refl
rstrip-append (c ∷ e ∷ s) d t h = rw (rstrip-append (e ∷ s) d t h) refl

pub lstrip_cons : (c : ℕ) (s : Chars) → is_blank c ≡ false → lstrip (c ∷ s) ≡ c ∷ s
unfolding lstrip
lstrip_cons c s h = rw h refl

pub strip_between :
    (c : ℕ) (s : Chars) (d : ℕ) (t : Chars)
    → is_blank c ≡ false
    → rstrip (d ∷ t) ≡ d ∷ t
    → strip (c ∷ (s ++ (d ∷ t))) ≡ c ∷ (s ++ (d ∷ t))
unfolding strip
strip_between c s d t h k = rw (lstrip_cons c (s ++ (d ∷ t)) h) (rstrip-append (c ∷ s) d t k)

-- A literal takes itself off the front.
pub literal-append : (word rest : Chars) → literal word (word ++ rest) ≡ some rest
unfolding literal
literal-append [] rest = refl
literal-append (c ∷ word) rest = rw (==_self c) (literal-append word rest)

rstrip-cons_stripped :
    (c : ℕ) (s : Chars) → rstrip s ≡ s → rstrip (cons_stripped c s) ≡ cons_stripped c s
unfolding rstrip
rstrip-cons_stripped c [] h = elim (Bool-cases (is_blank c)) [
  | inl b ↦ rw b refl
  | inr b ↦ rw b (rw b refl)
]
rstrip-cons_stripped c (d ∷ s) h = rw h refl

pub rstrip_idem : (s : Chars) → rstrip (rstrip s) ≡ rstrip s
unfolding rstrip
rstrip_idem [] = refl
rstrip_idem (c ∷ s) = rstrip-cons_stripped c (rstrip s) (rstrip_idem s)

-- A text that `strip` leaves alone.
abbrev pub IsTrimmed : Chars → Type 0
IsTrimmed s = (lstrip s ≡ s) × (rstrip s ≡ s)

cons_stripped-letter : (c : ℕ) (s : Chars) → is_blank c ≡ false → cons_stripped c s ≡ c ∷ s
cons_stripped-letter c [] h = rw h refl
cons_stripped-letter c (d ∷ s) h = refl

lstrip-rstrip : (s : Chars) → lstrip (rstrip (lstrip s)) ≡ rstrip (lstrip s)
unfolding lstrip rstrip
lstrip-rstrip [] = refl
lstrip-rstrip (c ∷ s) = elim (Bool-cases (is_blank c)) [
  | inl b ↦ rw b (lstrip-rstrip s)
  | inr b ↦ rw b (rw (cons_stripped-letter c (rstrip s) b) (lstrip_cons c (rstrip s) b))
]

pub strip-IsTrimmed : (s : Chars) → IsTrimmed (strip s)
unfolding strip
strip-IsTrimmed s = (lstrip-rstrip s, rstrip_idem (lstrip s))

-- A literal that begins with no blank, in front of a text that is trimmed and not empty.
pub strip-literal :
    (c : ℕ) (word s : Chars)
    → is_blank c ≡ false
    → s ≢ []
    → rstrip s ≡ s
    → strip (c ∷ (word ++ s)) ≡ c ∷ (word ++ s)
strip-literal c word [] letter some_text h = absurd (some_text refl)
strip-literal c word (d ∷ s) letter some_text h = strip_between c word d s letter h

pub strip_trimmed : (s : Chars) → IsTrimmed s → strip s ≡ s
unfolding strip
strip_trimmed s (left, right) = ap rstrip left ∙ right

-- Blanks at the end go with what stands in front of them, and nothing else does.
pub rstrip-append_blank : (s t : Chars) → rstrip t ≡ [] → rstrip (s ++ t) ≡ rstrip s
unfolding rstrip
rstrip-append_blank [] t h = h
rstrip-append_blank (c ∷ s) t h = ap (cons_stripped c) (rstrip-append_blank s t h)

pub rstrip-append_text :
    (s t : Chars) {d : ℕ} {u : Chars} → rstrip t ≡ d ∷ u → rstrip (s ++ t) ≡ s ++ (d ∷ u)
unfolding rstrip
rstrip-append_text [] t h = h
rstrip-append_text (c ∷ []) t h = rw h refl
rstrip-append_text (c ∷ e ∷ s) t {d} {u} h =
    ap (cons_stripped c) (rstrip-append_text (e ∷ s) t {d = d} {u = u} h)

lstrip-rstrip_comm : (s : Chars) → lstrip (rstrip s) ≡ rstrip (lstrip s)
unfolding lstrip rstrip
lstrip-rstrip_comm [] = refl
lstrip-rstrip_comm (c ∷ s) = elim (Bool-cases (is_blank c)) [
  | inl b ↦ rw b (blank_front c (rstrip s) b ∙ lstrip-rstrip_comm s)
  | inr b ↦ rw b (rw (cons_stripped-letter c (rstrip s) b) (lstrip_cons c (rstrip s) b))
]
  where
    blank_front : (c : ℕ) (t : Chars) → is_blank c ≡ true → lstrip (cons_stripped c t) ≡ lstrip t
    blank_front c [] b = rw b refl
    blank_front c (d ∷ t) b = rw b refl

pub strip-rstrip : (s : Chars) → strip (rstrip s) ≡ strip s
unfolding strip
strip-rstrip s = ap rstrip (lstrip-rstrip_comm s) ∙ rstrip_idem (lstrip s)
