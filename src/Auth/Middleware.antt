-- ===== src/Auth/Middleware.antt =====
-- backend/auth/middleware.py: what happens before each request, and backend/auth/decorators.py:
-- what each view asks of the current user.
use snapshot_drive.Prelude.{
  ℕ, String, Bool, false, not, ◌&&◌, Option, none, some, List, [], ◌∷◌, if◌then◌else◌, str_eq,
}
pub mod Guarded
use snapshot_drive.Auth.Rows.{User, Session}
use snapshot_drive.Auth.Db.{Db}
use snapshot_drive.Auth.Sessions.{load_session, revoke_session, refresh_session}
use snapshot_drive.Auth.Users.{get_user_by_id, is_member}
use snapshot_drive.Prelude.Text.{is_empty}

-- What the middleware reads of a request; `cookie` and `csrf_header` are empty when absent.
pub record Request : Type 0 where
  pub method : String
  pub endpoint : String
  pub cookie : String
  pub csrf_header : String

-- flask's `g`
pub record Context : Type 0 where
  pub current_user : Option User
  pub session : Option Session

abbrev pub nobody : Context
nobody = record { current_user = none; session = none }

abbrev pub unsafe_methods : List String
unsafe_methods = "POST" ∷ "PUT" ∷ "PATCH" ∷ "DELETE" ∷ []

abbrev pub csrf_exempt_endpoints : List String
csrf_exempt_endpoints =
    "auth.login" ∷ "auth.reset_request" ∷ "auth.reset_consume" ∷ "auth.mfa_enroll_start"
    ∷ "auth.mfa_enroll_confirm" ∷ "audit.api_refresh" ∷ "central_api.heartbeat" ∷ "central_api.ping"
    ∷ []

-- The user of the session that was found, or the session revoked; `t` gives the clock's readings.
unfoldable pub admit : (ℕ → ℕ) → String → Session → Db → Db × Context
admit t sid s db = elim (get_user_by_id s.user_id db.users) [
  | none ↦ (record db { sessions = revoke_session sid db.sessions }, nobody)
  | some u ↦
      if str_eq u.status "active"
      then (
        record db { sessions = refresh_session (t 1) sid db.sessions },
        record { current_user = some u; session = some s },
      )
      else (record db { sessions = revoke_session sid db.sessions }, nobody)
]

unfoldable pub after_load : (ℕ → ℕ) → String → Db → List Session × Option Session → Db × Context
unfolding admit
after_load t sid db (rows, none) = (record db { sessions = rows }, nobody)
after_load t sid db (rows, some s) = admit t sid s (record db { sessions = rows })

unfoldable pub load_context : (ℕ → ℕ) → Request → Db → Db × Context
unfolding after_load
load_context t req db =
    if is_empty req.cookie
    then (db, nobody)
    else after_load t req.cookie db (load_session (t 0) req.cookie db.sessions)

abbrev pub has_token : String → Option Session → Bool
has_token token none = false
has_token token (some s) = not (is_empty token) && str_eq token s.csrf_token

-- Whether the request is answered with 403.
unfoldable pub csrf_blocks : Request → Context → Bool
csrf_blocks req g =
    is_member req.method unsafe_methods
    && (not (is_member req.endpoint csrf_exempt_endpoints)
        && not (has_token req.csrf_header g.session))

-- `_load_session`: the tables after it, and the context that the view runs in, if it runs.
unfoldable pub before_request : (ℕ → ℕ) → Request → Db → Db × Option Context
unfolding load_context csrf_blocks
before_request t req db =
    let (db', g) = load_context t req db in (db', if csrf_blocks req g then none else some g)

pub data Access : Type 0 where
  unauthenticated forbidden : Access
  granted : User → Access

abbrev pub require_login : Context → Access
require_login g = elim g.current_user [ none ↦ unauthenticated | some u ↦ granted u ]

unfoldable pub require_any_role : List String → Context → Access
require_any_role roles g = elim g.current_user [
  | none ↦ unauthenticated
  | some u ↦ if is_member u.role roles then granted u else forbidden
]

abbrev pub require_role : String → Context → Access
require_role role = require_any_role (role ∷ [])
