-- ===== src/Prelude/Chars/Spans.antt =====
-- Tests on every character, and the runs that pass one.
use snapshot_drive.Prelude.{
  ℕ, zero, suc, ◌+◌, ◌/◌, ◌%◌, ◌==◌, ◌≡◌, refl, sym, subst, All, ap, Bool, true, List, [], ◌∷◌,
  ◌++◌, arith, Bool-cases, inl, inr,
}
use snapshot_drive.Prelude.Chars.{Chars, same, same_iff, one_of, is_digit, digits, decimal}
use snapshot_drive.Prelude.Chars.Scan.{every, span}

pub span_append : (test : ℕ → Bool) (s : Chars) → (span test s).0 ++ (span test s).1 ≡ s
unfolding span
span_append test [] = refl
span_append test (c ∷ s) = elim (Bool-cases (test c)) [
  | inl e ↦ rw e (ap (◌∷◌ c) (span_append test s))
  | inr e ↦ rw e refl
]

pub every-span : (test : ℕ → Bool) (s : Chars) → every test (span test s).0 ≡ true
unfolding span every
every-span test [] = refl
every-span test (c ∷ s) = elim (Bool-cases (test c)) [
  | inl e ↦ rw e (rw e (every-span test s))
  | inr e ↦ rw e refl
]

pub every-append :
    (test : ℕ → Bool) (s t : Chars)
    → every test s ≡ true
    → every test t ≡ true
    → every test (s ++ t) ≡ true
unfolding every
every-append test [] t h k = k
every-append test (c ∷ s) t h k = ground (arith, every-append test s t)

pub every_weaken :
    (test other : ℕ → Bool) (s : Chars)
    → ((c : ℕ) → test c ≡ true → other c ≡ true)
    → every test s ≡ true
    → every other s ≡ true
unfolding every
every_weaken test other [] weaker h = refl
every_weaken test other (c ∷ s) weaker h =
    ground (arith, weaker c, every_weaken test other s weaker)

-- What holds of every name holds of a text that is one of them.
pub one_of-All {ℓ} :
    (P : Chars → Type ℓ) (w : Chars) (names : List Chars)
    → All P names
    → one_of w names ≡ true
    → P w
unfolding one_of
one_of-All P w [] all h = cc
one_of-All P w (name ∷ names) all h = elim (Bool-cases (same w name)) [
  | inl e ↦ subst P (sym ((same_iff w name).0 e)) all.0
  | inr e ↦ one_of-All P w names all.1 (ground arith)
]

every-digits :
    (fuel n : ℕ) (acc : Chars)
    → every is_digit acc ≡ true
    → every is_digit (digits fuel n acc) ≡ true
unfolding digits every
every-digits zero n acc h = h
every-digits (suc fuel) n acc h =
    let first : every is_digit ((48 + n % 10) ∷ acc) ≡ true = ground arith in
    elim (Bool-cases (n / 10 == 0)) [
      | inl e ↦ rw e first
      | inr e ↦ rw e (every-digits fuel (n / 10) ((48 + n % 10) ∷ acc) first)
    ]

pub every-decimal : (n : ℕ) → every is_digit (decimal n) ≡ true
unfolding decimal every
every-decimal n = every-digits (suc n) n [] refl
