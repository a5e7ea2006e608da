-- ===== src/Central/Tokens/Verify.antt =====
-- verify, against the rows that it may accept.
use snapshot_drive.Prelude.{
  ℕ, ◌≤◌, String, ◌≡◌, refl, ◌∙◌, subst, ◌≢◌, inl, inr, Bool, true, false, not, ◌&&◌, ◌||◌, Option,
  none, some, List, [], ◌∷◌, ◌++◌, arith, ltb, if◌then◌else◌, Bool-cases, All, ok, err, Result,
  All-append, >>=-eq-ok, length,
}
use snapshot_drive.Central.Tokens.{
  Hasher, search_rows, verify, is_expired, invalid_hash, TokenInfo, stamp, revoke, not_revoked,
  issue, Verdict, matches, by_id, hash_error, used, mismatch, issue_row, Error,
}
use snapshot_drive.Central.Rows.{Token}
use snapshot_drive.Prelude.Table.{
  find, select, All-select, update, find-append_none, length-update, find-update_ne,
  find-update_found,
}
use snapshot_drive.Prelude.Table.Selecting.{select-append}
use snapshot_drive.Prelude.Text.{size, is_empty}

-- The row may authenticate the plaintext.
abbrev pub accepts : Hasher → ℕ → String → Token → Bool
accepts h now plaintext t =
    not (is_expired now t.expires_at)
    && (elim (h.check t.token_hash plaintext) [ matches ↦ true | _ ↦ false ])

-- The stored text is a hash, to the hasher.
abbrev pub IsHash : Hasher → String → Token → Type 0
IsHash h plaintext t = h.check t.token_hash plaintext ≢ invalid_hash

search_rows-find :
    (h : Hasher) (now : ℕ) (plaintext : String) (rows : List Token)
    → All (IsHash h plaintext) rows
    → search_rows h now plaintext rows ≡ ok (find (accepts h now plaintext) rows)
unfolding search_rows find
search_rows-find h now plaintext [] w = refl
search_rows-find h now plaintext (t ∷ ts) w =
    ground (arith, search_rows-find h now plaintext ts w.1, w.0)

-- What the loop does where every stored text is a hash.
abbrev expected : Hasher → ℕ → String → List Token → Option Token
expected h now plaintext rows =
    if ltb (size plaintext) 16
    then none
    else find (accepts h now plaintext) (select not_revoked rows)

verify-stamp :
    (h : Hasher) (now : ℕ) (plaintext : String) (rows : List Token)
    → All (IsHash h plaintext) rows
    → verify h now plaintext rows ≡ ok (stamp now (expected h now plaintext rows) rows)
unfolding verify size
verify-stamp h now String.[] rows w = refl
verify-stamp h now (String.◌∷◌ c s) rows w =
    let usable = All-select (IsHash h (String.◌∷◌ c s)) not_revoked rows w in
    elim (Bool-cases (ltb (size (String.◌∷◌ c s)) 16)) [
      | inl short ↦ rw short
      | inr long ↦
          rw (long, search_rows-find h now (String.◌∷◌ c s) (select not_revoked rows) usable)
    ]

-- Only the rows with an id are touched: the first of them was last used at a time.
abbrev pub IsStamped : ℕ → ℕ → List Token → List Token → Type 0
IsStamped now i rows rows' =
    (length rows' ≡ length rows)
    × ((j : ℕ) → j ≢ i → find (by_id j) rows' ≡ find (by_id j) rows)
    × ((u : Token)
        → find (by_id i) rows ≡ some u
        → find (by_id i) rows' ≡ some (record u { last_used_at = some now }))

-- The answer and the table that verify leaves, by the token that it found.
abbrev pub IsAnswer : ℕ → List Token → List Token → Option Token → Option TokenInfo → Type 0
IsAnswer now rows rows' none info = (info ≡ none) × (rows' ≡ rows)
IsAnswer now rows rows' (some t) info =
    (info ≡ some (record { id = t.id; client_id = t.client_id; scope = t.scope; label = t.label }))
    × IsStamped now t.id rows rows'

stamp-IsAnswer :
    (now : ℕ) (found : Option Token) (rows : List Token)
    → IsAnswer now rows (stamp now found rows).0 found (stamp now found rows).1
unfolding stamp
stamp-IsAnswer now none rows = (refl, refl)
stamp-IsAnswer now (some t) rows = (
  refl,
  (
    length-update (by_id t.id) (used now) rows,
    λ j other.
        find-update_ne (by_id j) (by_id t.id) (used now) rows (λ r. refl) (λ r h. ground arith),
    λ u there. find-update_found (by_id t.id) (used now) rows (λ r. refl) there,
  ),
)

-- Where every stored text is a hash, verify answers with the id, the client, the scope and the
-- label of the first token that is not revoked, not expired and matches, and with nothing if there
-- is none or the plaintext is too short. With no answer the table stays as it was; with one, the
-- first row of the answer's id takes the time of the call as that of its last use, the first row of
-- every other id stays as it was, and no row is added or removed.
pub verify_lem :
    (h : Hasher) (now : ℕ) (plaintext : String) (rows : List Token)
    → All (IsHash h plaintext) rows
    → (rows' : List Token) × (info : Option TokenInfo) × (verify h now plaintext rows
        ≡ ok (rows', info))
      × IsAnswer now rows rows' (expected h now plaintext rows) info
verify_lem h now plaintext rows w =
    let found = expected h now plaintext rows in
    (
      (stamp now found rows).0,
      (stamp now found rows).1,
      verify-stamp h now plaintext rows w,
      stamp-IsAnswer now found rows,
    )

-- A token that was just issued authenticates its plaintext until it expires, where the hasher
-- accepts the hash that it made and no other token accepts the plaintext.
pub issue-verify :
    (h : Hasher) (rowid now later client_id : ℕ) (plaintext label scope : String)
    (expires_at : Option ℕ) (rows : List Token)
    → All (IsHash h plaintext) rows
    → h.check (h.hash plaintext) plaintext ≡ matches
    → 16 ≤ size plaintext
    → is_expired later expires_at ≡ false
    → find (accepts h later plaintext) (select not_revoked rows) ≡ none
    → let issued = (issue h rowid now plaintext client_id label scope expires_at rows).0 in
      verify h later plaintext issued
      ≡ ok (
        update (by_id rowid) (used later) issued,
        some (record { id = rowid; client_id = client_id; scope = scope; label = label }),
      )
unfolding issue stamp select find
issue-verify h rowid now later client_id plaintext label scope expires_at rows w own long fresh
      other =
    let row = issue_row h rowid now plaintext client_id label scope expires_at in
    let issued = rows ++ row ∷ [] in
    let enough : ltb (size plaintext) 16 ≡ false = ground arith in
    let accepted : find (accepts h later plaintext) (select not_revoked issued) ≡ some row =
      rw (select-append not_revoked rows) (
        find-append_none (accepts h later plaintext) (select not_revoked rows) row other
        ∙ rw (fresh, own)) in
    verify-stamp h later plaintext issued
      (All-append (IsHash h plaintext) rows (row ∷ []) w (λ p. cc (own, p), tt))
    ∙ rw (enough, accepted)

search_rows-All :
    (P : Token → Type 0) (h : Hasher) (now : ℕ) (plaintext : String) (rows : List Token) {t : Token}
    → All P rows
    → search_rows h now plaintext rows ≡ ok (some t)
    → P t
unfolding search_rows
search_rows-All P h now plaintext [] w e = cc
search_rows-All P h now plaintext (x ∷ xs) {t} w e =
    let later = search_rows-All P h now plaintext xs {t = t} w.1 in
    elim (Bool-cases (is_expired now x.expires_at)) [
      | inl old ↦ later (rw old at e)
      | inr fresh ↦ at_row later (h.check x.token_hash plaintext) (rw fresh at e)
    ]
  where
    at_row :
        (search_rows h now plaintext xs ≡ ok (some t) → P t)
        → (v : Verdict)
        → elim v [
          | matches ↦ ok (some x)
          | mismatch ↦ search_rows h now plaintext xs
          | invalid_hash ↦ err hash_error
        ]
          ≡ ok (some t)
        → P t
    at_row later matches q = subst P (ground arith) w.0
    at_row later mismatch q = later q
    at_row later invalid_hash q = cc

revoke-All :
    (now i : ℕ) (rows : List Token)
    → All (λ t. by_id i t ≡ false) (select not_revoked (revoke now i rows))
unfolding revoke select update
revoke-All now i [] = tt
revoke-All now i (t ∷ ts) = elim (Bool-cases (by_id i t)) [
  | inl same ↦ rw same (revoke-All now i ts)
  | inr other ↦ rw other (elim (Bool-cases (not_revoked t)) [
    | inl live ↦ rw live (other, revoke-All now i ts)
    | inr dead ↦ rw dead (revoke-All now i ts)
  ])
]

-- A revoked token authenticates nothing: whatever the plaintext and however late, verify does not
-- answer with it.
pub revoke-verify :
    (h : Hasher) (now later i : ℕ) (plaintext : String) (rows rows' : List Token) (info : TokenInfo)
    → verify h later plaintext (revoke now i rows) ≡ ok (rows', some info)
    → info.id ≢ i
unfolding verify stamp
revoke-verify h now later i plaintext rows rows' info v =
    elim (Bool-cases (is_empty plaintext || ltb (size plaintext) 16)) [
      | inl short ↦ λ same. cc (rw short at v)
      | inr long ↦
          let (found, e, q) = >>=-eq-ok (search_rows h later plaintext _) _ (rw long at v) in
          answered found e q
    ]
  where
    answered :
        (found : Option Token)
        → search_rows h later plaintext (select not_revoked (revoke now i rows)) ≡ ok found
        → ◌≡◌ {A = Result Error (List Token × Option TokenInfo)}
            (ok (stamp later found (revoke now i rows)))
            (ok (rows', some info))
        → info.id ≢ i
    answered none e q = cc
    answered (some t) e q =
        let other =
          search_rows-All (λ r. by_id i r ≡ false) h later plaintext _ {t = t}
            (revoke-All now i rows) e in
        λ same. ground arith

-- One row whose stored text is no hash stops the search: the tokens after it authenticate nothing,
-- and the exception leaves verify.
pub verify_malformed :
    (h : Hasher) (now : ℕ) (plaintext : String) (t : Token) (ts : List Token)
    → 16 ≤ size plaintext
    → t.revoked_at ≡ none
    → is_expired now t.expires_at ≡ false
    → h.check t.token_hash plaintext ≡ invalid_hash
    → verify h now plaintext (t ∷ ts) ≡ err hash_error
unfolding verify select size search_rows
verify_malformed h now String.[] t ts long live fresh bad = absurd (omega arith)
verify_malformed h now (String.◌∷◌ c s) t ts long live fresh bad = ground arith
