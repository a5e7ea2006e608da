-- ===== src/Services/ArchiveConfig/Taxonomy.antt =====
-- What the setter of the taxonomy leaves in the file.
use snapshot_drive.Services.ConfFile.{lookup, are_keys}
use snapshot_drive.Services.ArchiveConfig.{
  get_config, number_field, write_back, or_default, number_update, field, paises, Updates, Form,
  read_conf, entornos, Value, taxonomy_updates, proyectos, store_taxonomy, set_taxonomy, setting,
}
use snapshot_drive.Services.ArchiveConfig.{World}
use snapshot_drive.Prelude.{
  require-true, refl, inr, none, inl, ◌∷◌, sym, ok_injective, subst, ◌⊎◌, leb, ap, some, ◌≤◌,
  >>=-eq-ok, length, Option, ok, [], List, ℕ, ◌≢◌, arith, ◌≡◌, true, not, ◌==◌,
}
use snapshot_drive.Prelude.Chars.{
  is_digit, same_iff, decimal, or_else, strip, same, chars, is_break, one_of, Chars,
}
use snapshot_drive.Prelude.Chars.Scan.{every}
use snapshot_drive.Prelude.Chars.Spans.{every-decimal, one_of-All, every_weaken}
use snapshot_drive.Services.ArchiveConfig.Saved.{
  IsEnding, answered-IsEnding, write_back-IsSaved, IsSaved, AreValues, IsValue,
}
use snapshot_drive.Services.ArchiveConfig.Values.{validate_nombre, validate_enum, in_label}

label-IsValue : (v : Chars) → every in_label v ≡ true → IsValue v
label-IsValue v h = record {
  plain = every_weaken in_label (λ c. not (c == b'"')) v (λ c e. ground arith) h;
  one_line = every_weaken in_label (λ c. not (is_break c)) v (λ c e. ground arith) h;
}

validate_enum-eq-ok :
    (value : Chars) (allowed : List Chars) {v : Chars}
    → validate_enum value allowed ≡ ok v
    → one_of v allowed ≡ true
unfolding validate_enum
validate_enum-eq-ok value allowed {v} e = ground arith

-- A name of a machine: a label of 1 to 64 characters.
abbrev IsNombre : Chars → Type 0
IsNombre v = (v ≢ []) × (length v ≤ 64) × (every in_label v ≡ true)

validate_nombre-eq-ok : (value : Chars) {v : Chars} → validate_nombre value ≡ ok v → IsNombre v
unfolding validate_nombre
validate_nombre-eq-ok value {v} e =
    let (u, some_text, r1) = >>=-eq-ok _ _ e in
    let (u2, short, r2) = >>=-eq-ok _ _ r1 in
    let (u3, codes, done) = >>=-eq-ok _ _ r2 in
    let not_empty = require-true (not (same (strip value) [])) _ some_text in
    let fits = require-true (leb (length (strip value)) 64) _ short in
    subst IsNombre (ok_injective done)
      (λ is. (let both = (same_iff _ _).1 is in ground arith), ground arith, require-true _ _ codes)

number_update-eq-ok :
    (key : Chars) (low high : ℕ) (o : Option Value) {ups : Updates}
    → number_update key low high o ≡ ok ups
    → (ups ≡ []) ⊎ ((n : ℕ) × (ups ≡ (key, decimal n) ∷ []))
number_update-eq-ok key low high none e = inl (sym (ok_injective e))
number_update-eq-ok key low high (some value) e =
    let (n, valid, done) =
      >>=-eq-ok (number_field low high value) (λ k. ok ((key, decimal k) ∷ [])) e in
    inr (n, sym (ok_injective done))

module _ (p e c n : Chars) (is_p : one_of p proyectos ≡ true) (is_e : one_of e entornos ≡ true)
    (is_c : one_of c paises ≡ true) (is_n : IsNombre n) where
  abbrev four : Updates → Updates
  four months =
      (chars "BACKUP_PROYECTO", p)
      ∷ (chars "BACKUP_ENTORNO", e)
      ∷ (chars "BACKUP_PAIS", c)
      ∷ (chars "BACKUP_NOMBRE", n)
      ∷ months

  four-AreValues : (months : Updates) → AreValues months → AreValues (four months)
  unfolding every
  four-AreValues months h =
      let label = λ (v : Chars) (k : every in_label v ≡ true). label-IsValue v k in
      (
        (
          refl,
          label p (
              one_of-All (λ v. every in_label v ≡ true) p proyectos
                (refl, (refl, (refl, (refl, (refl, tt))))) is_p),
        ),
        (
          (
            refl,
            label e (one_of-All (λ v. every in_label v ≡ true) e entornos (refl, (refl, tt)) is_e),
          ),
          (
            (
              refl,
              label c (
                  one_of-All (λ v. every in_label v ≡ true) c paises
                    (refl, (refl, (refl, (refl, tt)))) is_c),
            ),
            ((refl, label n is_n.2), h),
          ),
        ),
      )

  months-AreValues : (k : ℕ) → AreValues ((chars "ARCHIVE_KEEP_MONTHS", decimal k) ∷ [])
  unfolding every
  months-AreValues k = (
    (
      refl,
      label-IsValue (decimal k)
          (every_weaken is_digit in_label (decimal k) (λ x h. ground arith) (every-decimal k)),
    ),
    tt,
  )

-- The settings that a taxonomy fills, as they must be, with all other keys as before.
pub record IsTaxonomy (w w' : World) : Type 0 where
  pub proyecto : one_of (setting (chars "BACKUP_PROYECTO") [] w') proyectos ≡ true
  pub entorno : one_of (setting (chars "BACKUP_ENTORNO") [] w') entornos ≡ true
  pub pais : one_of (setting (chars "BACKUP_PAIS") [] w') paises ≡ true
  pub nombre : IsNombre (setting (chars "BACKUP_NOMBRE") [] w')
  pub password : setting (chars "ARCHIVE_PASSWORD") [] w' ≡ setting (chars "ARCHIVE_PASSWORD") [] w

setting-some :
    (key default : Chars) (w : World) {v : Chars}
    → lookup key (read_conf w.conf) ≡ some v
    → setting key default w ≡ v
unfolding setting
setting-some key default w h = ap (or_default default) h

module _ (p e c n : Chars) (is_p : one_of p proyectos ≡ true) (is_e : one_of e entornos ≡ true)
    (is_c : one_of c paises ≡ true) (is_n : IsNombre n) (months : Updates) (w w' : World) where
  saved-IsTaxonomy :
      lookup (chars "ARCHIVE_PASSWORD") months ≡ none
      → IsSaved (four p e c n is_p is_e is_c is_n months) w w'
      → IsTaxonomy w w'
  unfolding lookup same setting every
  saved-IsTaxonomy apart s = record {
    proyecto =
        subst (λ v. one_of v proyectos ≡ true)
          (sym (
            setting-some (chars "BACKUP_PROYECTO") [] w'
              (s.written (chars "BACKUP_PROYECTO") p refl)))
          is_p;
    entorno =
        subst (λ v. one_of v entornos ≡ true)
          (sym (
            setting-some (chars "BACKUP_ENTORNO") [] w'
              (s.written (chars "BACKUP_ENTORNO") e refl)))
          is_e;
    pais =
        subst (λ v. one_of v paises ≡ true)
          (sym (setting-some (chars "BACKUP_PAIS") [] w' (s.written (chars "BACKUP_PAIS") c refl)))
          is_c;
    nombre =
        subst IsNombre
          (sym
            (setting-some (chars "BACKUP_NOMBRE") [] w' (s.written (chars "BACKUP_NOMBRE") n refl)))
          is_n;
    password = ap (or_default []) (s.kept (chars "ARCHIVE_PASSWORD") apart refl);
  }

set_months :
    (w : World) (p e c n : Chars) (is_p : one_of p proyectos ≡ true)
    (is_e : one_of e entornos ≡ true) (is_c : one_of c paises ≡ true) (is_n : IsNombre n)
    (months : Updates) {w' : World}
    → write_back (four p e c n is_p is_e is_c is_n months) w ≡ ok w'
    → (months ≡ []) ⊎ ((k : ℕ) × (months ≡ (chars "ARCHIVE_KEEP_MONTHS", decimal k) ∷ []))
    → IsTaxonomy w w'
unfolding are_keys lookup every same
set_months w p e c n is_p is_e is_c is_n months {w'} written (inl none_given) =
    let ups = four p e c n is_p is_e is_c is_n [] in
    saved-IsTaxonomy p e c n is_p is_e is_c is_n [] w w' refl (
      write_back-IsSaved ups refl (four-AreValues p e c n is_p is_e is_c is_n [] tt) w {w' = w'}
        (rw none_given at written))
set_months w p e c n is_p is_e is_c is_n months {w'} written (inr (k, given)) =
    let more : Updates = (chars "ARCHIVE_KEEP_MONTHS", decimal k) ∷ [] in
    let ups = four p e c n is_p is_e is_c is_n more in
    saved-IsTaxonomy p e c n is_p is_e is_c is_n more w w' refl (
      write_back-IsSaved ups refl
        (four-AreValues p e c n is_p is_e is_c is_n more
          (months-AreValues p e c n is_p is_e is_c is_n k))
        w {w' = w'} (rw given at written))

store_taxonomy-IsTaxonomy :
    (host : Chars) (form : Form) (w : World) {w' : World}
    → store_taxonomy host form w ≡ ok w'
    → IsTaxonomy w w'
unfolding store_taxonomy taxonomy_updates
store_taxonomy-IsTaxonomy host form w {w'} done =
    let (ups, valid, saved) = >>=-eq-ok (taxonomy_updates host form) _ done in
    let (p', f1, r1) = >>=-eq-ok (field (chars "proyecto") form) _ valid in
    let (p, v1, r2) = >>=-eq-ok (validate_enum p' proyectos) _ r1 in
    let (e', f2, r3) = >>=-eq-ok (field (chars "entorno") form) _ r2 in
    let (e, v2, r4) = >>=-eq-ok (validate_enum e' entornos) _ r3 in
    let (c', f3, r5) = >>=-eq-ok (field (chars "pais") form) _ r4 in
    let (c, v3, r6) = >>=-eq-ok (validate_enum c' paises) _ r5 in
    let (n', f4, r7) = >>=-eq-ok (field (chars "nombre") form) _ r6 in
    let (n, v4, r8) = >>=-eq-ok (validate_nombre (or_else n' host)) _ r7 in
    let keep = lookup (chars "keep_months") form in
    let (months, v5, r9) =
      >>=-eq-ok (number_update (chars "ARCHIVE_KEEP_MONTHS") 1 120 keep) _ r8 in
    let is_p = validate_enum-eq-ok p' proyectos {v = p} v1 in
    let is_e = validate_enum-eq-ok e' entornos {v = e} v2 in
    let is_c = validate_enum-eq-ok c' paises {v = c} v3 in
    let is_n = validate_nombre-eq-ok (or_else n' host) {v = n} v4 in
    let written = subst (λ u. write_back u w ≡ ok w') (sym (ok_injective r9)) saved in
    set_months w p e c n is_p is_e is_c is_n months {w' = w'} written
      (number_update-eq-ok (chars "ARCHIVE_KEEP_MONTHS") 1 120 keep v5)

-- However `set_taxonomy` ends: either it raised and the file and the memory are what they were; or
-- it leaves a file in which project, environment and country are known ones and the name is a label
-- of 1 to 64 characters, whatever the form and the file held, with the password of the archives as
-- it was, and it ends as `get_config` ends on that file.
pub set_taxonomy_lem :
    (host : Chars) (form : Form) (w : World)
    → IsEnding (get_config host) (IsTaxonomy w) w (set_taxonomy host form w)
unfolding set_taxonomy
set_taxonomy_lem host form w =
    answered-IsEnding (get_config host) (IsTaxonomy w) w (store_taxonomy host form w)
      (λ w' done. store_taxonomy-IsTaxonomy host form w {w' = w'} done)
