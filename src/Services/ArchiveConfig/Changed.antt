-- ===== src/Services/ArchiveConfig/Changed.antt =====
-- What the setters of the password and of the taxonomy leave in the file.
use snapshot_drive.Services.ArchiveConfig.Saved.{
  IsEnding, answered-IsEnding, write_back-IsSaved, IsSaved,
}
use snapshot_drive.Prelude.Chars.Lines.{IsLine}
use snapshot_drive.Services.ConfFile.{lookup, are_keys}
use snapshot_drive.Services.ArchiveConfig.{
  get_config, write_back, World, store_password, set_password,
}
use snapshot_drive.Prelude.Chars.Scan.{every}
use snapshot_drive.Prelude.{
  require-true, subst, leb, ◌∙◌, ok_injective, sym, Bool-cases, inr, length, inl, >>=-eq-ok, ◌≤◌,
  ◌⊎◌, arith, ◌≡◌, refl, true, not, ◌==◌, [], ◌∷◌, ok,
}
use snapshot_drive.Prelude.Chars.{chars, same, same_iff, Chars}
use snapshot_drive.Prelude.Chars.Spans.{every_weaken}
use snapshot_drive.Services.ArchiveConfig.Lines.Shown.{no_quote}
use snapshot_drive.Services.ArchiveConfig.Values.{validate_password, is_plain}

plain-no_quote : (v : Chars) → is_plain v ≡ true → no_quote v ≡ true
plain-no_quote v = every_weaken _ (λ c. not (c == b'"')) v (λ c h. ground arith)

-- what the password may be
abbrev pub IsPassword : Chars → Type 0
IsPassword pw = (pw ≡ []) ⊎ ((8 ≤ length pw) × (length pw ≤ 256) × (no_quote pw ≡ true))

validate_password-eq-ok :
    (pw confirm : Chars) {v : Chars}
    → validate_password pw confirm ≡ ok v
    → (pw ≡ confirm) × (v ≡ pw) × IsPassword pw
unfolding validate_password
validate_password-eq-ok pw confirm {v} e =
    let (u, matches, rest) = >>=-eq-ok _ _ e in
    let is = (same_iff pw confirm).0 (require-true (same pw confirm) _ matches) in
    elim (Bool-cases (same pw [])) [
      | inl empty ↦
          let none_set = (same_iff pw []).0 empty in
          (is, sym (ok_injective (rw empty at rest)) ∙ sym none_set, inl none_set)
      | inr some_text ↦
          let (u1, e1, r1) = >>=-eq-ok _ _ (rw some_text at rest) in
          let (u2, e2, r2) = >>=-eq-ok _ _ r1 in
          let (u3, e3, r3) = >>=-eq-ok _ _ r2 in
          let long = require-true (leb 8 (length pw)) _ e1 in
          let short = require-true (leb (length pw) 256) _ e2 in
          (
            is,
            sym (ok_injective r3),
            inr (ground arith, ground arith, plain-no_quote pw (require-true _ _ e3)),
          )
    ]

IsPassword-no_quote : (pw : Chars) → IsPassword pw → no_quote pw ≡ true
unfolding every
IsPassword-no_quote pw (inl empty) = rw empty refl
IsPassword-no_quote pw (inr (long, short, plain)) = plain

-- What a password that was set leaves, for what was typed.
abbrev pub IsPasswordSaved : Chars → Chars → World → World → Type 0
IsPasswordSaved new confirm w w' =
    (new ≡ confirm) × IsPassword new × IsSaved ((chars "ARCHIVE_PASSWORD", new) ∷ []) w w'

store_password-IsPasswordSaved :
    (new confirm : Chars) (w : World) {w' : World}
    → IsLine new
    → store_password new confirm w ≡ ok w'
    → IsPasswordSaved new confirm w w'
unfolding store_password are_keys lookup every
store_password-IsPasswordSaved new confirm w {w'} one_line e =
    let (pw, valid, saved) = >>=-eq-ok _ _ e in
    let (is, own, may) = validate_password-eq-ok new confirm {v = pw} valid in
    (
      is,
      may,
      write_back-IsSaved ((chars "ARCHIVE_PASSWORD", new) ∷ []) refl
          ((refl, record { plain = IsPassword-no_quote new may; one_line = one_line }), tt) w
          (subst (λ v. write_back ((chars "ARCHIVE_PASSWORD", v) ∷ []) w ≡ ok w') own saved),
    )

-- However `set_password` ends for a password without a line break, of ASCII or of Unicode: either
-- it raised and the file and the memory are what they were; or the password was typed twice, it is
-- empty or has 8 to 256 characters and no double quote, it is what the file then gives, every other
-- key of the file reads as before, the memory is what it was, and the call ends as `get_config`
-- ends on that file.
pub set_password_lem :
    (host new confirm : Chars) (w : World)
    → IsLine new
    → IsEnding (get_config host) (IsPasswordSaved new confirm w) w (set_password host new confirm w)
unfolding set_password
set_password_lem host new confirm w one_line =
    answered-IsEnding (get_config host) (IsPasswordSaved new confirm w) w
      (store_password new confirm w)
      (λ w' done. store_password-IsPasswordSaved new confirm w {w' = w'} one_line done)
