-- ===== src/Auth/Middleware/Guarded.antt =====
-- Who a view runs for.
use snapshot_drive.Prelude.{
  ℕ, ◌<◌, String, ◌≡◌, refl, subst, inl, inr, Bool, true, false, Option, none, some, List, arith,
  if◌then◌else◌, Bool-cases, Option-cases, str_eq, eq_iff,
}
use snapshot_drive.Auth.Rows.{User, Session, user_with, session_with}
use snapshot_drive.Auth.Db.{Db}
use snapshot_drive.Auth.Middleware.{
  load_context, before_request, Request, Context, unsafe_methods, csrf_exempt_endpoints, admit,
  after_load, csrf_blocks, has_token,
}
use snapshot_drive.Prelude.Table.{find, find-delete_self}
use snapshot_drive.Auth.Sessions.{load_session, revoke_session}
use snapshot_drive.Auth.Sessions.Revoking.{load_session_lem}
use snapshot_drive.Prelude.Text.{is_empty}
use snapshot_drive.Auth.Users.{is_member}

-- What the middleware makes of a session that was found.
IsAdmitted : String → Session → Db → Db × Context → Type 0
IsAdmitted sid s db r =
    ((u : User)
      → r.1.current_user ≡ some u
      → (find (user_with s.user_id) db.users ≡ some u)
        × (str_eq u.status "active" ≡ true)
        × (r.1.session ≡ some s))
    × (r.1.current_user ≡ none → find (session_with sid) r.0.sessions ≡ none)

admit_lem :
    (t : ℕ → ℕ) (sid : String) (s : Session) (db : Db) → IsAdmitted sid s db (admit t sid s db)
unfolding IsAdmitted admit revoke_session
admit_lem t sid s db = elim (Option-cases (find (user_with s.user_id) db.users)) [
  | inl gone ↦ rw (gone, admit) (λ u h. cc, λ h. find-delete_self (session_with sid) db.sessions)
  | inr (u, there) ↦
      rw (there, admit)
        (elim (Bool-cases (str_eq u.status "active")) [
          | inl active ↦ rw active (
            λ v h.
                let same : u ≡ v = cc in
                (cc, subst (λ x. str_eq x.status "active" ≡ true) same active, refl),
            λ h. cc,
          )
          | inr shut ↦ rw shut (λ v h. cc, λ h. find-delete_self (session_with sid) db.sessions)
        ])
]

after_load_lem :
    (t : ℕ → ℕ) (sid : String) (db : Db) (loaded : List Session × Option Session)
    → ((s : Session)
        → loaded.1 ≡ some s
        → (find (session_with sid) db.sessions ≡ some s) × (t 0 < s.expires_at))
    → (loaded.1 ≡ none → find (session_with sid) loaded.0 ≡ none)
    → ((u : User)
        → (after_load t sid db loaded).1.current_user ≡ some u
        → (s : Session) × (find (session_with sid) db.sessions ≡ some s)
          × (t 0 < s.expires_at)
          × (find (user_with s.user_id) db.users ≡ some u)
          × (str_eq u.status "active" ≡ true)
          × ((after_load t sid db loaded).1.session ≡ some s))
      × ((after_load t sid db loaded).1.current_user ≡ none
          → find (session_with sid) (after_load t sid db loaded).0.sessions ≡ none)
unfolding after_load IsAdmitted
after_load_lem t sid db (rows, none) live gone = (λ u h. cc, λ h. gone refl)
after_load_lem t sid db (rows, some s) live gone =
    let (found, fresh) = live s refl in
    let (in_force, out) = admit_lem t sid s (record db { sessions = rows }) in
    (λ u h. let (mine, active, same) = in_force u h in (s, found, fresh, mine, active, same), out)

-- The user that a view sees owns a live session of the request's cookie and is active, whatever
-- the request; where the user of that session is not active or gone, no session with the cookie is
-- left.
pub load_context_lem :
    (t : ℕ → ℕ) (req : Request) (db : Db)
    → ((u : User)
        → (load_context t req db).1.current_user ≡ some u
        → (s : Session) × (find (session_with req.cookie) db.sessions ≡ some s)
          × (t 0 < s.expires_at)
          × (find (user_with s.user_id) db.users ≡ some u)
          × (str_eq u.status "active" ≡ true)
          × ((load_context t req db).1.session ≡ some s))
      × ((load_context t req db).1.current_user ≡ none
          → is_empty req.cookie ≡ false
          → find (session_with req.cookie) (load_context t req db).0.sessions ≡ none)
unfolding load_context
load_context_lem t req db = elim (Bool-cases (is_empty req.cookie)) [
  | inl absent ↦ rw absent (λ u h. cc, λ h e. cc)
  | inr given ↦
      let (live, gone) = load_session_lem (t 0) req.cookie db.sessions in
      let (some_user, no_user) =
        after_load_lem t req.cookie db (load_session (t 0) req.cookie db.sessions)
          (λ s h. let l = live s h in (l.0, l.1)) gone in
      rw given (some_user, λ h e. no_user h)
]

has_token-some :
    (token : String) (session : Option Session)
    → has_token token session ≡ true
    → (s : Session) × (session ≡ some s) × (is_empty token ≡ false) × (token ≡ s.csrf_token)
has_token-some token none h = cc
has_token-some token (some s) h =
    (s, refl, ground arith, (eq_iff token s.csrf_token).0 (ground arith))

csrf_passes :
    (req : Request) (g : Context)
    → csrf_blocks req g ≡ false
    → is_member req.method unsafe_methods ≡ true
    → is_member req.endpoint csrf_exempt_endpoints ≡ false
    → has_token req.csrf_header g.session ≡ true
unfolding csrf_blocks
csrf_passes req g passes unsafe guarded = elim (Bool-cases (has_token req.csrf_header g.session)) [
  | inl t ↦ t
  | inr f ↦ let blocked : csrf_blocks req g ≡ true = rw (unsafe, guarded, f) refl in cc
]

passed : (b : Bool) (g h : Context) → (if b then none else some g) ≡ some h → (b ≡ false) × (g ≡ h)
passed true g h e = cc
passed false g h e = (refl, cc)

-- A request that may change something and is not exempt reaches its view only with the token of
-- its session in the header.
pub before_request_lem :
    (t : ℕ → ℕ) (req : Request) (db : Db) (g : Context)
    → (before_request t req db).1 ≡ some g
    → is_member req.method unsafe_methods ≡ true
    → is_member req.endpoint csrf_exempt_endpoints ≡ false
    → (s : Session) × (g.session ≡ some s)
      × (is_empty req.csrf_header ≡ false)
      × (req.csrf_header ≡ s.csrf_token)
unfolding before_request
before_request_lem t req db g reached unsafe guarded =
    let seen = (load_context t req db).1 in
    let (passes, same) = passed (csrf_blocks req seen) seen g reached in
    let token = csrf_passes req seen passes unsafe guarded in
    has_token-some req.csrf_header g.session
      (subst (λ x. has_token req.csrf_header x.session ≡ true) same token)
