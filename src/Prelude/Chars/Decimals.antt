-- ===== src/Prelude/Chars/Decimals.antt =====
-- The decimal text of a number, read back.
use snapshot_drive.Prelude.{
  ℕ, zero, suc, ◌+◌, ◌/◌, ◌%◌, ◌<◌, ◌==◌, ◌≡◌, ◌≢◌, refl, ap, ◌∙◌, Bool, true, false, some, [], ◌∷◌,
  arith, Bool-cases, inl, inr,
}
use snapshot_drive.Prelude.Chars.{
  Chars, is_digit, is_blank, digits, decimal, value_from, rstrip, cons_stripped,
}
use snapshot_drive.Prelude.Chars.Scan.{every, span, of_run, number, maybe}
use snapshot_drive.Prelude.Chars.Spans.{every-decimal}

value_from-digits :
    (fuel n : ℕ) (acc : Chars) → n < fuel → value_from 0 (digits fuel n acc) ≡ value_from n acc
unfolding digits value_from
value_from-digits zero n acc h = absurd (omega arith)
value_from-digits (suc fuel) n acc h = elim (Bool-cases (n / 10 == 0)) [
  | inl last ↦ rw last (ap (λ m. value_from m acc) (ground arith))
  | inr more ↦ rw more (
      value_from-digits fuel (n / 10) ((48 + n % 10) ∷ acc) (ground arith)
      ∙ ap (λ m. value_from m acc) (omega arith))
]

value_from-decimal : (n : ℕ) → value_from 0 (decimal n) ≡ n
unfolding decimal value_from
value_from-decimal n = value_from-digits (suc n) n [] (omega arith)

digits-ne-nil : (fuel n c : ℕ) (acc : Chars) → digits fuel n (c ∷ acc) ≢ []
unfolding digits
digits-ne-nil zero n c acc = cc
digits-ne-nil (suc fuel) n c acc = elim (Bool-cases (n / 10 == 0)) [
  | inl e ↦ rw e cc
  | inr e ↦ rw e (digits-ne-nil fuel (n / 10) (48 + n % 10) (c ∷ acc))
]

pub decimal-ne-nil : (n : ℕ) → decimal n ≢ []
unfolding decimal digits
decimal-ne-nil n = elim (Bool-cases (n / 10 == 0)) [
  | inl e ↦ rw e cc
  | inr e ↦ rw e (digits-ne-nil n (n / 10) (48 + n % 10) [])
]

span_all : (test : ℕ → Bool) (s : Chars) → every test s ≡ true → span test s ≡ (s, [])
unfolding span every
span_all test [] h = refl
span_all test (c ∷ s) h = elim (Bool-cases (test c)) [
  | inl e ↦ rw e (rw (span_all test s (rw e at h)) refl)
  | inr e ↦ let no_run = rw e at h in cc
]

number-digits :
    (s : Chars) → every is_digit s ≡ true → s ≢ [] → number s ≡ some (value_from 0 s, [])
unfolding number
number-digits [] h ne = absurd (ne refl)
number-digits (c ∷ s) h ne = ap of_run (span_all is_digit (c ∷ s) h)

pub number-decimal : (n : ℕ) → number (decimal n) ≡ some (n, [])
number-decimal n =
    number-digits (decimal n) (every-decimal n) (decimal-ne-nil n)
    ∙ ap (λ m. some (m, [])) (value_from-decimal n)

rstrip-digits : (s : Chars) → every is_digit s ≡ true → rstrip s ≡ s
unfolding rstrip every
rstrip-digits [] h = refl
rstrip-digits (c ∷ []) h = let no_blank : is_blank c ≡ false = ground arith in rw no_blank refl
rstrip-digits (c ∷ d ∷ s) h = ap (cons_stripped c) (rstrip-digits (d ∷ s) (ground arith))

pub rstrip-decimal : (n : ℕ) → rstrip (decimal n) ≡ decimal n
rstrip-decimal n = rstrip-digits (decimal n) (every-decimal n)

maybe-digits : (x : ℕ) (s : Chars) → is_digit x ≡ false → every is_digit s ≡ true → maybe x s ≡ s
unfolding every
maybe-digits x [] h e = refl
maybe-digits x (c ∷ s) h e = ground arith

pub maybe-decimal : (x n : ℕ) → is_digit x ≡ false → maybe x (decimal n) ≡ decimal n
maybe-decimal x n h = maybe-digits x (decimal n) h (every-decimal n)
