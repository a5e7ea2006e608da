-- ===== src/Auth/Passwords/Policy.antt =====
-- What the password policy accepts.
use snapshot_drive.Prelude.{
  ℕ, ◌≤◌, String, ◌≡◌, refl, ◌↔◌, Bool, true, false, not, ◌&&◌, arith, ltb, leb, require, ok,
  Result, ◌>>=◌,
}
use snapshot_drive.Auth.Passwords.{
  validate_policy, local_part, min_len, too_short, names, has_email, has_name, min_zxcvbn_score,
  too_weak,
}
use snapshot_drive.Prelude.Text.{size, contains, lower}

require_iff : {E : Type 0} (b : Bool) (e : E) → (require b e ≡ ok tt) ↔ (b ≡ true)
require_iff true e = (λ h. refl, λ h. refl)
require_iff false e = (λ h. cc, λ h. cc)

require_then :
    {E : Type 0} (b : Bool) (e : E) (m : Result E (Unit {0}))
    → ((require b e >>= λ _. m) ≡ ok tt) ↔ ((b ≡ true) × (m ≡ ok tt))
require_then true e m = (λ h. (refl, h), λ h. h.1)
require_then false e m = (λ h. cc, λ h. cc)

-- The policy accepts exactly the passwords of at least 12 characters and strength 3 that contain
-- neither the local part of the address nor the name, whatever the letters' case, where these have
-- two characters or more.
pub validate_policy_lem :
    (score : String → ℕ) (password email name : String)
    → (validate_policy score password email name ≡ ok tt) ↔ (
        (12 ≤ size password)
        × (2 ≤ size (local_part email) → contains (lower password) (local_part email) ≡ false)
        × (2 ≤ size name → contains (lower password) (lower name) ≡ false)
        × (3 ≤ score password))
unfolding validate_policy
validate_policy_lem score password email name = (
  λ h.
      let s1 = (require_then (leb min_len (size password)) too_short _).0 h in
      let s2 = (require_then (not (names (local_part email) password)) has_email _).0 s1.1 in
      let s3 =
        (require_then (not (ltb 1 (size name) && contains (lower password) (lower name))) has_name
            _).0
          s2.1 in
      let s4 = (require_iff (leb min_zxcvbn_score (score password)) too_weak).0 s3.1 in
      (ground arith, λ long. ground arith, λ long. ground arith, ground arith),
  λ h. (require_then (leb min_len (size password)) too_short _).1 (
    ground arith,
    (require_then (not (names (local_part email) password)) has_email _).1 (
      ground arith,
      (require_then (not (ltb 1 (size name) && contains (lower password) (lower name))) has_name
            _).1
          (
            ground arith,
            (require_iff (leb min_zxcvbn_score (score password)) too_weak).1 (ground arith),
          ),
    ),
  ),
)
