-- ===== src/Services/ConfFile/Rewritten.antt =====
-- A rewritten file gives every key of the updates its new value, and every other key the value
-- that it had.
use snapshot_drive.Prelude.{
  ◌≡◌, refl, sym, ap, ◌∙◌, true, false, none, some, List, [], ◌∷◌, if◌then◌else◌, inl, inr,
  Bool-cases, Option-cases, arith,
}
use snapshot_drive.Prelude.Chars.{Chars, same, same_iff, lstrip}
use snapshot_drive.Prelude.Chars.Scan.{literal, every}
use snapshot_drive.Services.ConfFile.{
  assigned, assigns, lookup, put, match_update, rewrite_line, is_key, are_keys, Format, AreShown,
}

pub assigned_unique :
    (k j s : Chars)
    → is_key k ≡ true
    → is_key j ≡ true
    → assigned k s ≡ true
    → assigned j s ≡ true
    → k ≡ j
unfolding assigned literal every lstrip
assigned_unique [] [] s hk hj ak aj = refl
assigned_unique [] (d ∷ j) [] hk hj ak aj = cc
assigned_unique [] (d ∷ j) (x ∷ s) hk hj ak aj = ground arith
assigned_unique (c ∷ k) [] [] hk hj ak aj = cc
assigned_unique (c ∷ k) [] (x ∷ s) hk hj ak aj = ground arith
assigned_unique (c ∷ k) (d ∷ j) [] hk hj ak aj = cc
assigned_unique (c ∷ k) (d ∷ j) (x ∷ s) hk hj ak aj = ground (arith, assigned_unique k j s)

pub lookup-put {ℓ} :
    {V : Type ℓ} (k j : Chars) (v : V) (d : List (Chars × V))
    → lookup j (put k v d) ≡ (if same k j then some v else lookup j d)
unfolding lookup put
lookup-put k j v [] = refl
lookup-put k j v ((i, w) ∷ d) =
    ground (arith, same_iff k j, same_iff i k, same_iff i j, lookup-put k j v d)

pub assigns_apart :
    (k j line : Chars)
    → is_key k ≡ true
    → is_key j ≡ true
    → same k j ≡ false
    → assigns k line ≡ true
    → assigns j line ≡ false
unfolding assigns
assigns_apart k j line key_k key_j other mine = elim (Bool-cases (assigns j line)) [
  | inr no_line ↦ no_line
  | inl both ↦
      let is = (same_iff k j).1 (assigned_unique k j (lstrip line) key_k key_j mine both) in cc
]

module _ {V : Type 0} where
  pub is_key-lookup :
      (ups : List (Chars × V)) (j : Chars) {v : V}
      → are_keys ups ≡ true
      → lookup j ups ≡ some v
      → is_key j ≡ true
  unfolding are_keys lookup
  is_key-lookup [] j h e = cc
  is_key-lookup ((k, w) ∷ ups) j {v} h e = elim (Bool-cases (same k j)) [
    | inl is ↦ rw (← (same_iff k j).0 is) (ground arith)
    | inr other ↦ is_key-lookup ups j {v = v} (ground arith) (rw other at e)
  ]

  -- The update that a line takes is that of the key which it assigns.
  pub match_update_hit :
      (ups : List (Chars × V)) (line k : Chars) {v : V}
      → are_keys ups ≡ true
      → match_update ups line ≡ some (k, v)
      → (assigns k line ≡ true) × (lookup k ups ≡ some v)
  unfolding match_update lookup are_keys
  match_update_hit [] line k h e = cc
  match_update_hit ((i, w) ∷ ups) line k {v} h e = elim (Bool-cases (assigns i line)) [
    | inl hit ↦ ground (arith, same_iff i k)
    | inr miss ↦
        let rest = match_update_hit ups line k {v = v} (ground arith) (rw miss at e) in
        ground (arith, same_iff i k)
  ]

  pub match_update_miss :
      (ups : List (Chars × V)) (line j : Chars) {v : V}
      → match_update ups line ≡ none
      → lookup j ups ≡ some v
      → assigns j line ≡ false
  unfolding match_update lookup
  match_update_miss [] line j m e = cc
  match_update_miss ((k, w) ∷ ups) line j {v} m e =
      ground (arith, same_iff k j, match_update_miss ups line j {v = v})

  lookup_apart :
      (ups : List (Chars × V)) (k j : Chars) {v : V}
      → lookup k ups ≡ some v
      → lookup j ups ≡ none
      → same k j ≡ false
  lookup_apart ups k j {v} here gone = elim (Bool-cases (same k j)) [
    | inl is ↦ let both = rw ((same_iff k j).0 is) at here in cc
    | inr other ↦ other
  ]

module _ {V W : Type 0} (f : Format V W) where
  open f use {show, value, reads, reads_assigns}

  pub reads_none : (j line : Chars) → is_key j ≡ true → assigns j line ≡ false → reads j line ≡ none
  reads_none j line key no_line = elim (Option-cases (reads j line)) [
    | inl is ↦ is
    | inr (w, is) ↦ let hit = reads_assigns j line key (rw is refl) in cc
  ]

  -- a line that assigns another key
  pub reads_apart :
      (k j line : Chars)
      → is_key k ≡ true
      → is_key j ≡ true
      → same k j ≡ false
      → assigns k line ≡ true
      → reads j line ≡ none
  reads_apart k j line key_k key_j other mine =
      reads_none j line key_j (assigns_apart k j line key_k key_j other mine)

  pub AreShown-lookup :
      (ups : List (Chars × V)) (j : Chars) {v : V}
      → AreShown f ups
      → lookup j ups ≡ some v
      → reads j (show j v) ≡ some (value v)
  unfolding lookup
  AreShown-lookup [] j s e = cc
  AreShown-lookup ((k, w) ∷ ups) j {v} s e = elim (Bool-cases (same k j)) [
    | inl is ↦ ground (arith, same_iff k j)
    | inr other ↦ AreShown-lookup ups j {v = v} s.1 (rw other at e)
  ]

  module _ (ups : List (Chars × V)) (keys : are_keys ups ≡ true) (shown : AreShown f ups) where
    rewrite_line_miss :
        (line : Chars) → match_update ups line ≡ none → rewrite_line show ups line ≡ line
    unfolding rewrite_line
    rewrite_line_miss line miss = rw (rewrite_line, miss) refl

    rewrite_line_hit :
        (line k : Chars) {v : V}
        → match_update ups line ≡ some (k, v)
        → rewrite_line show ups line ≡ show k v
    unfolding rewrite_line
    rewrite_line_hit line k hit = rw (rewrite_line, hit) refl

    -- a line that is written for another key
    pub reads_other :
        (k j : Chars) {v : V}
        → lookup k ups ≡ some v
        → is_key j ≡ true
        → same k j ≡ false
        → reads j (show k v) ≡ none
    reads_other k j {v} here key other =
        let key' = is_key-lookup ups k {v = v} keys here in
        let mine = AreShown-lookup ups k {v = v} shown here in
        reads_apart k j (show k v) key' key other (reads_assigns k (show k v) key' (rw mine refl))

    hit_own :
        (k j line : Chars) {v w : V}
        → k ≡ j
        → assigns k line ≡ true
        → lookup k ups ≡ some w
        → lookup j ups ≡ some v
        → reads j (show k w) ≡ (if assigns j line then some (value v) else none)
    hit_own k j line {v} {w} is mine there here =
        let same_value : w ≡ v = (let both = rw is at there in cc) in
        rw (← is) (
          rw mine (AreShown-lookup ups k {v = w} shown there ∙ ap (λ x. some (value x)) same_value))

    hit_other :
        (k j line : Chars) (v : V) {w : V}
        → is_key j ≡ true
        → is_key k ≡ true
        → same k j ≡ false
        → assigns k line ≡ true
        → lookup k ups ≡ some w
        → reads j (show k w) ≡ (if assigns j line then some (value v) else none)
    hit_other k j line v {w} key key' other mine there =
        rw (assigns_apart k j line key' key other mine) (reads_other k j {v = w} there key other)

    pub reads-rewrite_line :
        (j line : Chars) {v : V}
        → lookup j ups ≡ some v
        → reads j (rewrite_line show ups line) ≡ (if assigns j line then some (value v) else none)
    reads-rewrite_line j line {v} here =
        let key = is_key-lookup ups j {v = v} keys here in
        elim (Option-cases (match_update ups line)) [
          | inl miss ↦
              let no_line = match_update_miss ups line j {v = v} miss here in
              rw (rewrite_line_miss line miss) (rw no_line (reads_none j line key no_line))
          | inr ((k, w), hit) ↦
              let (mine, there) = match_update_hit ups line k {v = w} keys hit in
              let key' = is_key-lookup ups k {v = w} keys there in
              rw (rewrite_line_hit line k {v = w} hit) (elim (Bool-cases (same k j)) [
                | inl is ↦ hit_own k j line {v = v} {w = w} ((same_iff k j).0 is) mine there here
                | inr other ↦ hit_other k j line v {w = w} key key' other mine there
              ])
        ]

    pub reads-rewrite_line_other :
        (j line : Chars)
        → lookup j ups ≡ none
        → is_key j ≡ true
        → reads j (rewrite_line show ups line) ≡ reads j line
    reads-rewrite_line_other j line gone key = elim (Option-cases (match_update ups line)) [
      | inl miss ↦ rw (rewrite_line_miss line miss) refl
      | inr ((k, w), hit) ↦
          let (mine, there) = match_update_hit ups line k {v = w} keys hit in
          let key' = is_key-lookup ups k {v = w} keys there in
          let other = lookup_apart ups k j {v = w} there gone in
          rw (rewrite_line_hit line k {v = w} hit) (
            reads_other k j {v = w} there key other
            ∙ sym (reads_apart k j line key' key other mine))
    ]
