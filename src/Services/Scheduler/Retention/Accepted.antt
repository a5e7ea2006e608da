-- ===== src/Services/Scheduler/Retention/Accepted.antt =====
-- The values that `set_retention` accepts, and the file that it leaves.
use snapshot_drive.Prelude.{
  ℕ, ◌≡◌, ◌≤◌, refl, sym, ap, ◌∙◌, Bool, true, false, Option, none, some, List, [], ◌∷◌, ◌++◌,
  arith, All, ok, >>=-eq-ok, ok_injective, require,
}
use snapshot_drive.Prelude.Chars.{Chars, chars, same, same_self}
use snapshot_drive.Prelude.Chars.Integers.{ℤ, pos, negsuc}
use snapshot_drive.Prelude.Chars.Scan.{every}
use snapshot_drive.Services.ArchiveConfig.Values.{Value, int_value}
use snapshot_drive.Services.ConfFile.{File, missing, unreadable, text, lookup, are_keys, is_key}
use snapshot_drive.Services.Scheduler.{schedule}
use snapshot_drive.Services.Scheduler.Calendar.{no_conf}
use snapshot_drive.Services.Scheduler.Retention.RoundTrip.{
  is_word, AreWords, get_retention-written, get_retention-kept,
}
use snapshot_drive.Services.Scheduler.Retention.{
  retention_keys, get_retention, raw_value, in_retention, with_number, new_values, retention_text,
  write_retention, is_there, set_retention, or_number,
}

-- the update of one key, if it has a number
abbrev update_of : Chars → Option ℕ → List (Chars × ℕ)
update_of k none = []
update_of k (some n) = (k, n) ∷ []

abbrev IsSmall : Option ℕ → Type 0
IsSmall none = Unit
IsSmall (some n) = n ≤ 9999

in_retention-eq-ok : (o : Option ℤ) {n : ℕ} → in_retention o ≡ ok n → n ≤ 9999
in_retention-eq-ok none h = cc
in_retention-eq-ok (some (pos m)) h = ground arith
in_retention-eq-ok (some (negsuc m)) h = cc

with_number-eq-ok :
    (k : Chars) (raw : Option Value) {ups : List (Chars × ℕ)}
    → with_number k raw [] ≡ ok ups
    → (o : Option ℕ) × (ups ≡ update_of k o) × IsSmall o
with_number-eq-ok k none h = (none, sym (ok_injective h), tt)
with_number-eq-ok k (some value) h =
    let (n, valid, done) = >>=-eq-ok (in_retention (int_value value)) (λ m. ok ((k, m) ∷ [])) h in
    (some n, sym (ok_injective done), in_retention-eq-ok (int_value value) valid)

-- What a key was given, if anything: a number up to 9999, as the check of the form let it through.
abbrev pub IsGiven : List (Chars × Value) → Chars → Option ℕ → Type 0
IsGiven values k o = IsSmall o × (with_number k (raw_value k values) [] ≡ ok (update_of k o))

-- one key of the loop
new_values-step :
    (values : List (Chars × Value)) (k : Chars) (keys : List Chars) {ups : List (Chars × ℕ)}
    → new_values values (k ∷ keys) ≡ ok ups
    → (o : Option ℕ) × (rest : List (Chars × ℕ)) × (new_values values keys ≡ ok rest)
      × (ups ≡ update_of k o ++ rest)
      × IsGiven values k o
unfolding new_values
new_values-step values k keys h =
    let (first, valid, more) = >>=-eq-ok (with_number k (raw_value k values) []) _ h in
    let (rest, later, done) = >>=-eq-ok (new_values values keys) _ more in
    let (o, shape, small) = with_number-eq-ok k (raw_value k values) valid in
    (
      o,
      rest,
      later,
      sym (ok_injective done) ∙ ap (λ f. f ++ rest) shape,
      (small, valid ∙ ap ok shape),
    )

module _ (k : Chars) (rest : List (Chars × ℕ)) where
  update_of-AreWords :
      (o : Option ℕ) → is_word k ≡ true → AreWords rest → AreWords (update_of k o ++ rest)
  update_of-AreWords none h hs = hs
  update_of-AreWords (some n) h hs = (h, hs)

  update_of-are_keys :
      (o : Option ℕ)
      → is_key k ≡ true
      → lookup k rest ≡ none
      → are_keys rest ≡ true
      → are_keys (update_of k o ++ rest) ≡ true
  unfolding are_keys
  update_of-are_keys none key apart h = h
  update_of-are_keys (some n) key apart h = rw (key, apart, h) refl

  lookup-update_of_self :
      (o : Option ℕ) → lookup k rest ≡ none → lookup k (update_of k o ++ rest) ≡ o
  unfolding lookup
  lookup-update_of_self none apart = apart
  lookup-update_of_self (some n) apart = rw (same_self k) refl

  lookup-update_of :
      (o : Option ℕ) (j : Chars)
      → same k j ≡ false
      → lookup j (update_of k o ++ rest) ≡ lookup j rest
  unfolding lookup
  lookup-update_of none j other = refl
  lookup-update_of (some n) j other = rw other refl

-- The number of a key after the call: the one that was given, or else the one that was there.
abbrev pub IsKept : List (Chars × Value) → File → File → Chars → Type 0
IsKept values f f' k =
    (o : Option ℕ) × IsGiven values k o × (get_retention f' k ≡ or_number (get_retention f k) o)

kept :
    (ups : List (Chars × ℕ)) (k old : Chars) (o : Option ℕ)
    → are_keys ups ≡ true
    → AreWords ups
    → is_key k ≡ true
    → lookup k ups ≡ o
    → get_retention (text (retention_text ups old)) k ≡ or_number (get_retention (text old) k) o
kept ups k old none keys words key here = get_retention-kept ups keys words k old key here
kept ups k old (some n) keys words key here =
    get_retention-written ups keys words k old key {n = n} here

write_retention-eq-ok :
    (writable : Bool) (f : File) (ups : List (Chars × ℕ)) {f' : File}
    → write_retention writable f ups ≡ ok f'
    → (old : Chars) × (f ≡ text old) × (f' ≡ text (retention_text ups old))
write_retention-eq-ok writable f [] h = cc
write_retention-eq-ok writable missing (u ∷ ups) h = cc
write_retention-eq-ok writable unreadable (u ∷ ups) h = cc
write_retention-eq-ok true (text old) (u ∷ ups) h = (old, refl, sym (ok_injective h))
write_retention-eq-ok false (text old) (u ∷ ups) h = cc

-- the updates of the four keys, those that were given
abbrev four : Option ℕ → Option ℕ → Option ℕ → Option ℕ → List (Chars × ℕ)
four d w m y =
    update_of (chars "KEEP_DAILY") d
    ++ (update_of (chars "KEEP_WEEKLY") w
        ++ (update_of (chars "KEEP_MONTHLY") m ++ (update_of (chars "KEEP_YEARLY") y ++ [])))

four-AreWords : (d w m y : Option ℕ) → AreWords (four d w m y)
unfolding every
four-AreWords d w m y = update_of-AreWords _ _ d refl (
    update_of-AreWords _ _ w refl
      (update_of-AreWords _ _ m refl (update_of-AreWords _ _ y refl tt)))

module _ (d w m y : Option ℕ) where
  yearly : lookup (chars "KEEP_YEARLY") (four d w m y) ≡ y
  unfolding same lookup
  yearly =
      lookup-update_of _ _ d _ refl
      ∙ lookup-update_of _ _ w _ refl
      ∙ lookup-update_of _ _ m _ refl
      ∙ lookup-update_of_self _ _ y refl

  monthly : lookup (chars "KEEP_MONTHLY") (four d w m y) ≡ m
  unfolding same lookup
  monthly =
      lookup-update_of _ _ d _ refl
      ∙ lookup-update_of _ _ w _ refl
      ∙ lookup-update_of_self _ _ m (lookup-update_of _ _ y _ refl)

  weekly : lookup (chars "KEEP_WEEKLY") (four d w m y) ≡ w
  unfolding same lookup
  weekly =
      lookup-update_of _ _ d _ refl
      ∙ lookup-update_of_self _ _ w (lookup-update_of _ _ m _ refl ∙ lookup-update_of _ _ y _ refl)

  daily : lookup (chars "KEEP_DAILY") (four d w m y) ≡ d
  unfolding same lookup
  daily = lookup-update_of_self _ _ d (
      lookup-update_of _ _ w _ refl ∙ lookup-update_of _ _ m _ refl ∙ lookup-update_of _ _ y _ refl)

four-are_keys : (d w m y : Option ℕ) → are_keys (four d w m y) ≡ true
unfolding are_keys lookup every same
four-are_keys d w m y =
    update_of-are_keys _ _ d refl
      (lookup-update_of _ _ w _ refl
        ∙ lookup-update_of _ _ m _ refl
        ∙ lookup-update_of _ _ y _ refl)
      (update_of-are_keys _ _ w refl (lookup-update_of _ _ m _ refl ∙ lookup-update_of _ _ y _ refl)
        (update_of-are_keys _ _ m refl (lookup-update_of _ _ y _ refl)
          (update_of-are_keys _ _ y refl refl refl)))

new_values-nil :
    (values : List (Chars × Value)) {ups : List (Chars × ℕ)}
    → new_values values [] ≡ ok ups
    → ups ≡ []
unfolding new_values
new_values-nil values h = sym (ok_injective h)

-- The loop over the keys makes the updates of those that were given.
new_values-four :
    (values : List (Chars × Value)) {ups : List (Chars × ℕ)}
    → new_values values retention_keys ≡ ok ups
    → (d : Option ℕ) × (w : Option ℕ) × (m : Option ℕ) × (y : Option ℕ) × (ups ≡ four d w m y)
      × IsGiven values (chars "KEEP_DAILY") d
      × IsGiven values (chars "KEEP_WEEKLY") w
      × IsGiven values (chars "KEEP_MONTHLY") m
      × IsGiven values (chars "KEEP_YEARLY") y
new_values-four values {ups} h =
    let after_monthly : List Chars = chars "KEEP_YEARLY" ∷ [] in
    let after_weekly : List Chars = chars "KEEP_MONTHLY" ∷ after_monthly in
    let after_daily : List Chars = chars "KEEP_WEEKLY" ∷ after_weekly in
    let (d, r1, v1, e1, g1) = new_values-step values (chars "KEEP_DAILY") after_daily h in
    let (w, r2, v2, e2, g2) = new_values-step values (chars "KEEP_WEEKLY") after_weekly v1 in
    let (m, r3, v3, e3, g3) = new_values-step values (chars "KEEP_MONTHLY") after_monthly v2 in
    let (y, r4, v4, e4, g4) = new_values-step values (chars "KEEP_YEARLY") [] v3 in
    let tail = e4 ∙ ap (λ r. update_of (chars "KEEP_YEARLY") y ++ r) (new_values-nil values v4) in
    (
      d,
      w,
      m,
      y,
      e1
          ∙ ap (λ r. update_of (chars "KEEP_DAILY") d ++ r)
              (e2
                ∙ ap (λ r. update_of (chars "KEEP_WEEKLY") w ++ r)
                    (e3 ∙ ap (λ r. update_of (chars "KEEP_MONTHLY") m ++ r) tail)),
      g1,
      g2,
      g3,
      g4,
    )

four-IsKept :
    (values : List (Chars × Value)) (d w m y : Option ℕ) (f f' : File) (old k : Chars)
    (o : Option ℕ)
    → f ≡ text old
    → f' ≡ text (retention_text (four d w m y) old)
    → is_key k ≡ true
    → IsGiven values k o
    → lookup k (four d w m y) ≡ o
    → IsKept values f f' k
four-IsKept values d w m y f f' old k o was is key given here = (
  o,
  given,
  ap (λ x. get_retention x k) is
      ∙ kept (four d w m y) k old o (four-are_keys d w m y) (four-AreWords d w m y) key here
      ∙ ap (λ x. or_number (get_retention x k) o) (sym was),
)

-- A call of `set_retention` that does not raise leaves a file in which each of the four keys has
-- the number that the form gave for it, which is at most 9999, or, where it gave none, the number
-- that the file had, whatever the file held.
pub set_retention_lem :
    (writable : Bool) (values : List (Chars × Value)) (f : File) {f' : File}
    → set_retention writable values f ≡ ok f'
    → All (IsKept values f f') retention_keys
unfolding set_retention every
set_retention_lem writable values f {f'} h =
    let (u, there, r) = >>=-eq-ok (require (is_there f) (schedule no_conf)) _ h in
    let (ups, valid, written) = >>=-eq-ok (new_values values retention_keys) _ r in
    let (d, w, m, y, shape, g1, g2, g3, g4) = new_values-four values valid in
    let (old, was, is) = write_retention-eq-ok writable f ups {f' = f'} written in
    let is' = is ∙ ap (λ x. text (retention_text x old)) shape in
    (
      four-IsKept values d w m y f f' old _ d was is' refl g1 (daily d w m y),
      (
        four-IsKept values d w m y f f' old _ w was is' refl g2 (weekly d w m y),
        (
          four-IsKept values d w m y f f' old _ m was is' refl g3 (monthly d w m y),
          (four-IsKept values d w m y f f' old _ y was is' refl g4 (yearly d w m y), tt),
        ),
      ),
    )
