-- ===== src/Services/ConfFile/Latest.antt =====
-- The values that a rewritten list of lines gives: the updates', and of every other key what it
-- was.
use snapshot_drive.Prelude.{
  ◌≡◌, refl, sym, ap, ◌∙◌, Bool, true, false, ◌||◌, Option, none, some, List, [], ◌∷◌, ◌++◌, map,
  All, All-append, if◌then◌else◌, inl, inr, Bool-cases, Option-cases, arith,
}
use snapshot_drive.Prelude.Chars.{Chars, same, same_iff}
use snapshot_drive.Prelude.Chars.Lines.{IsLine}
use snapshot_drive.Services.ConfFile.Rewritten.{
  is_key-lookup, match_update_hit, match_update_miss, reads-rewrite_line, reads-rewrite_line_other,
  reads_apart, assigns_apart,
}
use snapshot_drive.Services.ConfFile.{
  assigns, lookup, match_update, rewrite_line, shown_or, is_seen, takes, additions, rewrite_lines,
  is_key, are_keys, Format, later, latest, AreShown,
}

abbrev any_assigns : Chars → List Chars → Bool
any_assigns j [] = false
any_assigns j (line ∷ lines) = assigns j line || any_assigns j lines

module _ {V W : Type 0} (f : Format V W) (ups : List (Chars × V)) (keys : are_keys ups ≡ true)
    (shown : AreShown f ups) where
  latest-map :
      (j : Chars) (lines : List Chars) (found : Option W) {v : V}
      → lookup j ups ≡ some v
      → latest f j found (map (rewrite_line f.show ups) lines)
        ≡ (if any_assigns j lines then some (f.value v) else found)
  unfolding latest
  latest-map j [] found here = refl
  latest-map j (line ∷ lines) found {v} here =
      ap (λ r. latest f j (later found r) (map (rewrite_line f.show ups) lines))
        (reads-rewrite_line f ups keys shown j line {v = v} here)
      ∙ elim (Bool-cases (assigns j line)) [
        | inl hit ↦ rw hit (latest-map j lines (some (f.value v)) {v = v} here ∙ ground arith)
        | inr miss ↦ rw miss (latest-map j lines found {v = v} here)
      ]

  latest-map_other :
      (j : Chars) (lines : List Chars) (found : Option W)
      → lookup j ups ≡ none
      → is_key j ≡ true
      → latest f j found (map (rewrite_line f.show ups) lines) ≡ latest f j found lines
  unfolding latest
  latest-map_other j [] found gone key = refl
  latest-map_other j (line ∷ lines) found gone key =
      ap (λ r. latest f j (later found r) (map (rewrite_line f.show ups) lines))
        (reads-rewrite_line_other f ups keys shown j line gone key)
      ∙ latest-map_other j lines _ gone key

  takes-match_update :
      (j line : Chars) {v : V}
      → lookup j ups ≡ some v
      → takes (match_update ups line) j ≡ assigns j line
  takes-match_update j line {v} here = elim (Option-cases (match_update ups line)) [
    | inl miss ↦ rw miss (sym (match_update_miss ups line j {v = v} miss here))
    | inr ((k, w), hit) ↦
        let (mine, there) = match_update_hit ups line k {v = w} keys hit in
        rw hit (elim (Bool-cases (same k j)) [
          | inl is ↦ rw is (rw (← (same_iff k j).0 is) (sym mine))
          | inr other ↦
              let key' = is_key-lookup ups k {v = w} keys there in
              let key = is_key-lookup ups j {v = v} keys here in
              rw other (sym (assigns_apart k j line key' key other mine))
        ])
  ]

  -- A key of the updates was seen exactly if some line assigns it.
  is_seen-any_assigns :
      (j : Chars) (lines : List Chars) {v : V}
      → lookup j ups ≡ some v
      → is_seen ups j lines ≡ any_assigns j lines
  unfolding is_seen
  is_seen-any_assigns j [] here = refl
  is_seen-any_assigns j (line ∷ lines) {v} here =
      rw (takes-match_update j line {v = v} here)
        (rw (is_seen-any_assigns j lines {v = v} here) refl)

module _ {V W : Type 0} (f : Format V W) (ups : List (Chars × V)) (lines : List Chars) where
  reads-show_other :
      (k j : Chars) {w : V}
      → is_key k ≡ true
      → is_key j ≡ true
      → same k j ≡ false
      → f.reads k (f.show k w) ≡ some (f.value w)
      → f.reads j (f.show k w) ≡ none
  reads-show_other k j {w} key_k key_j other mine =
      reads_apart f k j (f.show k w) key_k key_j other
        (f.reads_assigns k (f.show k w) key_k (rw mine refl))

  latest-additions_other :
      (j : Chars) (rest : List (Chars × V)) (found : Option W)
      → are_keys rest ≡ true
      → AreShown f rest
      → is_key j ≡ true
      → lookup j rest ≡ none
      → latest f j found (additions f.show ups lines rest) ≡ found
  unfolding latest additions lookup are_keys
  latest-additions_other j [] found keys shown key gone = refl
  latest-additions_other j ((k, w) ∷ rest) found keys shown key gone =
      let ih = latest-additions_other j rest found (ground arith) shown.1 key (ground arith) in
      let key' : is_key k ≡ true = ground arith in
      let other : same k j ≡ false = ground arith in
      let silent = reads-show_other k j key' key other shown.0 in
      elim (Bool-cases (is_seen ups k lines)) [
        | inl seen ↦ rw seen ih
        | inr new ↦
            rw new
              (ap (λ r. latest f j (later found r) (additions f.show ups lines rest)) silent ∙ ih)
      ]

  latest-additions :
      (j : Chars) (rest : List (Chars × V)) (found : Option W) {v : V}
      → are_keys rest ≡ true
      → AreShown f rest
      → lookup j rest ≡ some v
      → latest f j found (additions f.show ups lines rest)
        ≡ (if is_seen ups j lines then found else some (f.value v))
  unfolding latest additions lookup are_keys
  latest-additions j [] found keys shown here = cc
  latest-additions j ((k, w) ∷ rest) found {v} keys shown here = elim (Bool-cases (same k j)) [
    | inl is ↦
        let gone : lookup j rest ≡ none = ground (arith, same_iff k j) in
        let key : is_key j ≡ true = ground (arith, same_iff k j) in
        let none_more = λ (start : Option W).
          latest-additions_other j rest start (ground arith) shown.1 key gone in
        let mine : f.reads j (f.show k w) ≡ some (f.value v) = ground (arith, same_iff k j) in
        elim (Bool-cases (is_seen ups k lines)) [
          | inl seen ↦ rw (seen) (none_more found ∙ ground (arith, same_iff k j))
          | inr new ↦ rw new (
              ap (λ r. latest f j (later found r) (additions f.show ups lines rest)) mine
              ∙ none_more (some (f.value v))
              ∙ ground (arith, same_iff k j))
        ]
    | inr other ↦
        let ih = latest-additions j rest found {v = v} (ground arith) shown.1 (rw other at here) in
        let key : is_key j ≡ true =
          is_key-lookup rest j {v = v} (ground arith) (rw other at here) in
        let key' : is_key k ≡ true = ground arith in
        let silent = reads-show_other k j key' key other shown.0 in
        elim (Bool-cases (is_seen ups k lines)) [
          | inl seen ↦ rw seen ih
          | inr new ↦
              rw new
                (ap (λ r. latest f j (later found r) (additions f.show ups lines rest)) silent ∙ ih)
        ]
  ]

pub latest-append :
    {V W : Type 0} (f : Format V W) (j : Chars) (found : Option W) (lines more : List Chars)
    → latest f j found (lines ++ more) ≡ latest f j (latest f j found lines) more
unfolding latest
latest-append f j found [] more = refl
latest-append f j found (line ∷ lines) more = latest-append f j _ lines more

module _ {V W : Type 0} (f : Format V W) (ups : List (Chars × V)) (keys : are_keys ups ≡ true)
    (shown : AreShown f ups) (j : Chars) (found : Option W) (lines : List Chars) where
  -- A key of the updates has its new value.
  pub latest-rewrite_lines :
      {v : V}
      → lookup j ups ≡ some v
      → latest f j found (rewrite_lines f.show ups lines) ≡ some (f.value v)
  unfolding rewrite_lines
  latest-rewrite_lines {v} here =
      latest-append f j found (map (rewrite_line f.show ups) lines) _
      ∙ ap (λ r. latest f j r (additions f.show ups lines ups))
          (latest-map f ups keys shown j lines found {v = v} here)
      ∙ latest-additions f ups lines j ups _ {v = v} keys shown here
      ∙ rw (is_seen-any_assigns f ups keys shown j lines {v = v} here) (ground arith)

  -- Any other key has the value that it had.
  pub latest-rewrite_lines_other :
      lookup j ups ≡ none
      → is_key j ≡ true
      → latest f j found (rewrite_lines f.show ups lines) ≡ latest f j found lines
  unfolding rewrite_lines
  latest-rewrite_lines_other gone key =
      latest-append f j found (map (rewrite_line f.show ups) lines) _
      ∙ latest-additions_other f ups lines j ups _ keys shown key gone
      ∙ latest-map_other f ups keys shown j lines found gone key

-- What is written of lines is lines.
module _ {V : Type 0} (show : Chars → V → Chars) (ups : List (Chars × V))
    (written : All (λ (u : Chars × V). IsLine (show u.0 u.1)) ups) where
  match_update-IsLine :
      (rest : List (Chars × V)) (line : Chars)
      → All (λ (u : Chars × V). IsLine (show u.0 u.1)) rest
      → IsLine line
      → IsLine (shown_or show line (match_update rest line))
  unfolding match_update
  match_update-IsLine [] line w h = h
  match_update-IsLine ((k, v) ∷ rest) line w h = elim (Bool-cases (assigns k line)) [
    | inl hit ↦ rw hit w.0
    | inr miss ↦ rw miss (match_update-IsLine rest line w.1 h)
  ]

  map-IsLine :
      (lines : List Chars) → All IsLine lines → All IsLine (map (rewrite_line show ups) lines)
  unfolding rewrite_line
  map-IsLine [] h = tt
  map-IsLine (line ∷ lines) h = (match_update-IsLine ups line written h.0, map-IsLine lines h.1)

  additions-IsLine :
      (lines : List Chars) (rest : List (Chars × V))
      → All (λ (u : Chars × V). IsLine (show u.0 u.1)) rest
      → All IsLine (additions show ups lines rest)
  unfolding additions
  additions-IsLine lines [] w = tt
  additions-IsLine lines ((k, v) ∷ rest) w = elim (Bool-cases (is_seen ups k lines)) [
    | inl seen ↦ rw seen (additions-IsLine lines rest w.1)
    | inr new ↦ rw new (w.0, additions-IsLine lines rest w.1)
  ]

  pub rewrite_lines-IsLine :
      (lines : List Chars) → All IsLine lines → All IsLine (rewrite_lines show ups lines)
  unfolding rewrite_lines
  rewrite_lines-IsLine lines h =
      All-append IsLine (map (rewrite_line show ups) lines) (additions show ups lines ups)
        (map-IsLine lines h) (additions-IsLine lines ups written)
