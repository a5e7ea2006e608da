-- ===== src/Central/Queue/Due.antt =====
-- What fetch_due returns: only rows that are due, the earliest first, as many as there are.
use snapshot_drive.Prelude.{
  ℕ, zero, suc, ◌≡◌, refl, sym, ap, subst, ◌∙◌, ◌&&◌, Bool, true, List, [], ◌∷◌, ◌++◌, All, length,
  min, take, arith, length-take, All-take,
}
use snapshot_drive.Prelude.Table.{count, select, All-select_self}
use snapshot_drive.Prelude.Table.Counting.{length-select}
use snapshot_drive.Central.Queue.{Item, fetch_due, is_due}
use snapshot_drive.Prelude.Sort.{
  upwards, IsSorted, sort_by, count-sort_by, length-sort_by, All-sort_by, take-IsSorted,
  upwards-IsSorted,
}

abbrev pub earlier : Item → Item → Bool
earlier = upwards (λ r. r.next_retry_ts)

-- It returns as many rows as are due, up to the limit.
pub length-fetch_due :
    (now limit : ℕ) (rows : List Item)
    → length (fetch_due now limit rows) ≡ min limit (count (is_due now) rows)
unfolding fetch_due
length-fetch_due now limit rows =
    length-take limit _
    ∙ ap (min limit) (length-sort_by earlier _ ∙ length-select (is_due now) rows)

-- the rows behind the first n
abbrev leave : ℕ → List Item → List Item
leave zero rows = rows
leave (suc n) [] = []
leave (suc n) (r ∷ rows) = leave n rows

take_append : (n : ℕ) (rows : List Item) → take n rows ++ leave n rows ≡ rows
take_append zero rows = refl
take_append (suc n) [] = refl
take_append (suc n) (r ∷ rows) = ap (◌∷◌ r) (take_append n rows)

count-select :
    (p q : Item → Bool) (rows : List Item) → count p (select q rows) ≡ count (λ r. q r && p r) rows
unfolding count select
count-select p q [] = refl
count-select p q (r ∷ rows) = ground (arith, count-select p q rows)

-- fetch_due returns rows that are pending and whose retry time has come, the earliest first, and
-- exactly as many of them as there are, up to the limit. They are rows of the table, none more
-- often than there; the due rows that are left out are no earlier: put behind what is returned, they make
-- up the due rows of the table, each as often as it is there, still in the order of their times.
pub fetch_due_lem :
    (now limit : ℕ) (rows : List Item)
    → All (λ r. is_due now r ≡ true) (fetch_due now limit rows)
      × IsSorted earlier (fetch_due now limit rows)
      × (length (fetch_due now limit rows) ≡ min limit (count (is_due now) rows))
      × (left : List Item) × IsSorted earlier (fetch_due now limit rows ++ left)
      × ((p : Item → Bool)
          → count p (fetch_due now limit rows ++ left) ≡ count (λ r. is_due now r && p r) rows)
unfolding fetch_due
fetch_due_lem now limit rows =
    let due = sort_by earlier (select (is_due now) rows) in
    let whole = take_append limit due in
    (
      All-take (λ r. is_due now r ≡ true) limit _
          (All-sort_by earlier (λ r. is_due now r ≡ true) _ (All-select_self (is_due now) rows)),
      take-IsSorted earlier limit _ (upwards-IsSorted (λ r. r.next_retry_ts) _),
      length-fetch_due now limit rows,
      leave limit due,
      subst (IsSorted earlier) (sym whole) (upwards-IsSorted (λ r. r.next_retry_ts) _),
      λ p.
          ap (count p) whole
          ∙ count-sort_by earlier p (select (is_due now) rows)
          ∙ count-select p (is_due now) rows,
    )
