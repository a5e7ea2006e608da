-- ===== src/Central/Permissions.antt =====
-- backend/central/permissions.py: which role has which permission, and the guard of a view.
use snapshot_drive.Prelude.{
  String, ◌≡◌, refl, ◌≢◌, ◌↔◌, inl, inr, Bool, true, false, ◌||◌, Option, none, some, List, [], ◌∷◌,
  arith, if◌then◌else◌, Bool-cases, All, str_eq,
}

abbrev in_list : String → List String → Bool
in_list s [] = false
in_list s (x ∷ xs) = str_eq s x || in_list s xs

abbrev pub everyone : List String
everyone = "admin" ∷ "operator" ∷ "auditor" ∷ []

abbrev pub writers : List String
writers = "admin" ∷ "operator" ∷ []

abbrev pub admins : List String
admins = "admin" ∷ []

-- PERMISSIONS
abbrev pub permissions : List (String × List String)
permissions =
    ("central.dashboard:view", everyone)
    ∷ ("central.audit:view", everyone)
    ∷ ("central.clients:read", everyone)
    ∷ ("central.clients:write", writers)
    ∷ ("central.tokens:issue", writers)
    ∷ ("central.tokens:revoke", writers)
    ∷ ("central.alerts:configure", writers)
    ∷ ("central.users:manage", admins)
    ∷ ("central.settings:edit", admins)
    ∷ []

-- PERMISSIONS.get(perm, set())
unfoldable pub roles_of : String → List (String × List String) → List String
roles_of perm [] = []
roles_of perm ((p, roles) ∷ rest) =
    let later = roles_of perm rest in if str_eq p perm then roles else later

unfoldable pub role_has : String → String → Bool
unfolding roles_of
role_has role perm = in_list role (roles_of perm permissions)

-- What the guard answers before the view, or that the view runs.
pub data Outcome : Type 0 where
  json_unauthenticated login_redirect json_forbidden home_redirect runs_view : Outcome

-- `is_api` is what _is_api_request says of the request; the role is that of the current user.
unfoldable pub require_central_perm : String → Bool → Option String → Outcome
unfolding role_has
require_central_perm perm is_api none = if is_api then json_unauthenticated else login_redirect
require_central_perm perm is_api (some role) =
    if role_has role perm then runs_view else if is_api then json_forbidden else home_redirect

-- What holds of the roles of one permission.
abbrev pub IsRanked : String → List String → Type 0
IsRanked role roles =
    (in_list "auditor" roles ≡ true → in_list "operator" roles ≡ true)
    × (in_list "operator" roles ≡ true → in_list "admin" roles ≡ true)
    × (in_list role roles ≡ true → in_list role everyone ≡ true)

All-roles_of :
    (P : List String → Type 0)
    → P []
    → (perm : String) (table : List (String × List String)) → All (λ e. P e.1) table
    → P (roles_of perm table)
unfolding roles_of
All-roles_of P z perm [] h = z
All-roles_of P z perm ((p, roles) ∷ rest) h = elim (Bool-cases (str_eq p perm)) [
  | inl e ↦ rw e h.0
  | inr e ↦ rw e (All-roles_of P z perm rest h.1)
]

empty-IsRanked : (role : String) → IsRanked role []
empty-IsRanked role = (λ h. cc, λ h. cc, λ h. cc)

everyone-IsRanked : (role : String) → IsRanked role everyone
everyone-IsRanked role = (λ h. refl, λ h. refl, λ h. h)

writers-IsRanked : (role : String) → IsRanked role writers
writers-IsRanked role = (λ h. refl, λ h. refl, λ h. ground arith)

admins-IsRanked : (role : String) → IsRanked role admins
admins-IsRanked role = (λ h. cc, λ h. refl, λ h. ground arith)

permissions-All-IsRanked : (role : String) → All (λ e. IsRanked role e.1) permissions
permissions-All-IsRanked role =
    let e = everyone-IsRanked role in
    let w = writers-IsRanked role in
    let a = admins-IsRanked role in (e, (e, (e, (w, (w, (w, (w, (a, (a, tt)))))))))

-- The roles are ranked: what an auditor may do an operator may, and what an operator may do an
-- admin may; a role of another name may do nothing, and a permission that is not in the matrix is
-- nobody's.
pub role_has_ranked :
    (role perm : String)
    → (role_has "auditor" perm ≡ true → role_has "operator" perm ≡ true)
      × (role_has "operator" perm ≡ true → role_has "admin" perm ≡ true)
      × (role_has role perm ≡ true → in_list role everyone ≡ true)
unfolding role_has
role_has_ranked role perm =
    All-roles_of (IsRanked role) (empty-IsRanked role) perm permissions
      (permissions-All-IsRanked role)

-- A view behind the guard runs exactly for a signed-in user whose role has the permission, and
-- whether the request is one of the API changes only how it is refused.
pub require_central_perm_lem :
    (perm : String) (is_api : Bool) (role : String)
    → ((require_central_perm perm is_api (some role) ≡ runs_view) ↔ (role_has role perm ≡ true))
      × (require_central_perm perm is_api none ≢ runs_view)
unfolding require_central_perm
require_central_perm_lem perm is_api role = ground arith
