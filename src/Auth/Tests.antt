-- ===== src/Auth/Tests.antt =====
-- The theorems about backend/auth at concrete inputs.
use snapshot_drive.Prelude.{
  ◌^◌, ℕ, ◌+◌, String, ◌≡◌, refl, true, false, none, some, List, [], ◌∷◌, ◌++◌, arith, str_eq,
  if◌then◌else◌, ◌<◌, ◌≤◌, ◌||◌, ◌*◌, ◌==◌, err, ltb,
}
use snapshot_drive.Prelude.Table.{delete, find, count}
use snapshot_drive.Prelude.Text.{is_empty, lower, size, contains}
use snapshot_drive.Central.Tokens.{Verdict, matches, mismatch}
use snapshot_drive.Auth.Rows.{
  User, Session, PasswordReset, BackupCode, user_with, session_with, hour,
}
use snapshot_drive.Auth.Db.{Db}
use snapshot_drive.Auth.Audit.{Meta}
use snapshot_drive.Auth.Account.{Hashing, reset_consume, password_change}
use snapshot_drive.Auth.Account.Reset.{reset_consume_lem, IsReset}
use snapshot_drive.Auth.Account.Change.{password_change_lem, IsChange}
use snapshot_drive.Auth.Enrolment.{Confirmation, enrolled, mfa_enroll_confirm}
use snapshot_drive.Auth.Enrolment.Confirmed.{may_enrol, mfa_enroll_confirm_lem}
use snapshot_drive.Auth.Admin.Guarded.{disabling_lem}
use snapshot_drive.Auth.Sessions.{new_session, load_session, is_stale, has_expired}
use snapshot_drive.Auth.Sessions.Lifetime.{
  Reach, start, next, apply, creating, refreshing, Reach-idle_timeout,
}
use snapshot_drive.Auth.Users.{get_password_history, changed}
use snapshot_drive.Auth.Users.Profiles.{AreUnique}
use snapshot_drive.Auth.Users.History.{update_password-check_history}
use snapshot_drive.Auth.Lockout.{is_locked, record_failure}
use snapshot_drive.Auth.Lockout.Locking.{fail_all, record_failure_locks}
use snapshot_drive.Auth.Mfa.{consume_backup_code, open_code}
use snapshot_drive.Auth.Mfa.Codes.{consume_backup_code_lem}
use snapshot_drive.Auth.Passwords.{check_history, reused, validate_policy}
use snapshot_drive.Auth.ResetTokens.{consume_reset_token}
use snapshot_drive.Auth.ResetTokens.OneShot.{create-consume, consume_once}
use snapshot_drive.Auth.Middleware.{Request, Context, load_context}
use snapshot_drive.Auth.Middleware.Guarded.{load_context_lem, before_request_lem}
use snapshot_drive.Auth.Login.{Services, Login, login, invalid_credentials}
use snapshot_drive.Auth.Login.Admission.{login_lem, login_user, IsAdmission, login_refuses}

-- a hasher whose hash of a text is the text
abbrev check : String → String → Verdict
check h password = if str_eq h password then matches else mismatch

abbrev services : Services
services = record { check = check; totp = λ s c. str_eq c "123456"; decrypt = some }

abbrev ana : User
ana = record {
  id = 7;
  email = "ana@lab.co";
  display_name = "Ana";
  password_hash = "correct horse";
  role = "admin";
  mfa_secret = some "JBSW";
  mfa_enrolled_at = some 5;
  status = "active";
  failed_attempts = 0;
  lock_count = 0;
  locked_until = none;
  created_at = 1;
  updated_at = 1;
  last_login_at = none;
  mfa_disabled = false;
}

abbrev db : Db
db = record { users = ana ∷ []; sessions = []; history = []; resets = []; codes = []; audit = [] }

-- the n-th clock reading
abbrev t : ℕ → ℕ
t n = 100 + n

abbrev attempt : String → Login
attempt password = record {
  email = " Ana@lab.co ";
  password = password;
  mfa_code = "123456";
  ip = none;
  user_agent = "curl";
}

abbrev session : Session
session = new_session "s1" "c1" 104 7 none (some "curl") true

login_lem_example :
    (u : User) × (login_user (attempt "correct horse") db ≡ some u)
    × IsAdmission services t (attempt "correct horse") db session u
    × ((login services "s1" "c1" t (attempt "correct horse") db).0.sessions ≡ [] ++ session ∷ [])
unfolding login snapshot_drive.Auth.Login.address lower snapshot_drive.Prelude.Text.strip find
    is_locked snapshot_drive.Auth.Passwords.verify_password snapshot_drive.Auth.Users.is_member
    snapshot_drive.Auth.Mfa.get_user_secret snapshot_drive.Auth.Mfa.verify_totp
    snapshot_drive.Auth.Sessions.create_session snapshot_drive.Prelude.Text.prefix
login_lem_example =
    (login_lem services "s1" "c1" t (attempt "correct horse") db).0 "admin" "Ana" session refl

login_refuses_example :
    ((login services "s1" "c1" t (attempt "guess") db).1 ≡ invalid_credentials)
    × ((login services "s1" "c1" t (attempt "guess") db).0.users ≡ (
        if str_eq ana.status "disabled" || is_locked (t 0) 7 db.users
        then db.users
        else record_failure (t 1) (t 2) 7 db.users))
unfolding snapshot_drive.Auth.Login.address lower snapshot_drive.Prelude.Text.strip find is_locked
    snapshot_drive.Auth.Passwords.verify_password
login_refuses_example = login_refuses services "s1" "c1" t (attempt "guess") db ana refl refl

abbrev request : Request
request = record { method = "POST"; endpoint = "clients.create"; cookie = "s1"; csrf_header = "c1" }

abbrev signed_in : Db
signed_in = record db { sessions = session ∷ [] }

load_context_lem_example :
    (s : Session) × (find (session_with "s1") signed_in.sessions ≡ some s)
    × (t 0 < s.expires_at)
    × (find (user_with s.user_id) signed_in.users ≡ some ana)
    × (str_eq ana.status "active" ≡ true)
    × ((load_context t request signed_in).1.session ≡ some s)
unfolding load_context load_session find
load_context_lem_example = (load_context_lem t request signed_in).0 ana refl

abbrev shown : Context
shown = record { current_user = some ana; session = some session }

before_request_lem_example :
    (s : Session) × (some session ≡ some s) × (is_empty "c1" ≡ false) × ("c1" ≡ s.csrf_token)
unfolding snapshot_drive.Auth.Middleware.before_request snapshot_drive.Auth.Users.is_member
    load_session find
before_request_lem_example = before_request_lem t request signed_in shown refl refl refl

abbrev tired : User
tired = record ana { failed_attempts = 3; lock_count = 2 }

record_failure_locks_example :
    let before = fail_all 7 ((90, 91) ∷ []) (tired ∷ []) in
    let after = record_failure 100 101 7 before in
    (is_locked 200 7 before ≡ is_locked 200 7 (tired ∷ []))
    × (v : User) × (find (user_with 7) after ≡ some v)
    × (v.failed_attempts ≡ 0)
    × (v.lock_count ≡ 2 + 1)
    × (minutes : ℕ) × (is_locked 200 7 after ≡ ltb 200 (100 + minutes * 60000000))
    × (2 ≤ 6 → minutes ≡ 15 * 2 ^ 2)
    × (7 ≤ 2 → minutes ≡ 1440)
unfolding find
record_failure_locks_example =
    record_failure_locks 100 101 7 200 ((90, 91) ∷ []) (tired ∷ []) refl (omega arith)

abbrev other_session : Session
other_session = new_session "s2" "c2" 104 8 none none false

-- a session is created, then refreshed
used :
    Reach 300
      (apply 300 (refreshing "s1") (apply 104 (creating "s1" "c1" 7 none (some "curl") true) []))
used =
    next (refreshing "s1")
      (next (creating "s1" "c1" 7 none (some "curl") true) (start 0) (omega arith) refl)
      (omega arith) refl

abbrev last_seen : Session
last_seen = record session { last_seen_at = 300 }

Reach-idle_timeout_example :
    (is_stale 28800000103 last_seen ≡ has_expired 28800000103 last_seen)
    × (last_seen.expires_at ≤ 28800000103
        → load_session 28800000103 "s1" (last_seen ∷ [])
          ≡ (delete (session_with "s1") (last_seen ∷ []), none))
    × (28800000103 < last_seen.expires_at
        → load_session 28800000103 "s1" (last_seen ∷ []) ≡ (last_seen ∷ [], some last_seen))
unfolding find apply snapshot_drive.Auth.Sessions.refresh_session
    snapshot_drive.Auth.Sessions.create_session snapshot_drive.Prelude.Table.update
    snapshot_drive.Auth.Sessions.refreshed
Reach-idle_timeout_example = Reach-idle_timeout 28800000103 "s1" used (omega arith) refl

ana-AreUnique : AreUnique (ana ∷ [])
unfolding count
ana-AreUnique = (λ e. ground arith, λ i. ground arith)

update_password-check_history_example :
    (check_history check "new secret" (get_password_history 7 (changed 7 "new secret" 201 ∷ []))
      ≡ err reused)
    × ((8 == 7) ≡ false
        → get_password_history 8 (changed 7 "new secret" 201 ∷ []) ≡ get_password_history 8 [])
unfolding snapshot_drive.Auth.Users.update_password find snapshot_drive.Prelude.Table.update
    snapshot_drive.Prelude.Table.delete snapshot_drive.Auth.Users.is_among
    snapshot_drive.Prelude.Sort.sort_by snapshot_drive.Prelude.Table.select
update_password-check_history_example =
    update_password-check_history check 200 201 7 8 "new secret" "new secret" (ana ∷ [])
      (record ana { password_hash = "new secret"; updated_at = 200 } ∷ []) []
      (changed 7 "new secret" 201 ∷ []) refl tt refl

abbrev reset : PasswordReset
reset = record {
  token_hash = "tok";
  user_id = 7;
  created_at = 100;
  expires_at = 3600000100;
  consumed_at = none;
}

create-consume_example :
    (200 < 100 + 1 * hour → (consume_reset_token (λ s. s) "tok" 200 201 (reset ∷ [])).1 ≡ some 7)
    × (100 + 1 * hour ≤ 200
        → consume_reset_token (λ s. s) "tok" 200 201 (reset ∷ []) ≡ (reset ∷ [], none))
unfolding snapshot_drive.Auth.ResetTokens.create_reset_token find
create-consume_example = create-consume (λ s. s) "tok" 100 7 200 201 [] (reset ∷ []) "tok" refl

consume_once_example :
    (consume_reset_token
      (λ s. s)
      "tok"
      300
      301
      (consume_reset_token (λ s. s) "tok" 200 201 (reset ∷ [])).0).1
    ≡ none
unfolding consume_reset_token find snapshot_drive.Auth.ResetTokens.is_usable
consume_once_example = consume_once (λ s. s) "tok" 200 201 300 301 7 (reset ∷ []) refl

abbrev codes : List BackupCode
codes =
    record { user_id = 7; code_hash = "aaaa"; consumed_at = none }
    ∷ record { user_id = 7; code_hash = "bbbb"; consumed_at = none }
    ∷ record { user_id = 8; code_hash = "bbbb"; consumed_at = none }
    ∷ []

consume_backup_code_lem_example :
    let after = consume_backup_code check 200 7 "bbbb" codes in
    (after.1 ≡ true → count (open_code 7) after.0 < count (open_code 7) codes)
    × (after.1 ≡ false → after.0 ≡ codes)
    × ((8 == 7) ≡ false → count (open_code 8) after.0 ≡ count (open_code 8) codes)
consume_backup_code_lem_example = consume_backup_code_lem check 200 7 8 "bbbb" codes

abbrev hashing : Hashing
hashing = record { check = check; new_hash = "new long secret"; score = λ s. 4; digest = λ s. s }

abbrev meta : Meta
meta = record { ip = none; user_agent = none }

abbrev resetting : Db
resetting = record signed_in { resets = reset ∷ [] }

reset_consume_lem_example :
    (u : User) × (some 7 ≡ some u.id)
    × (find (user_with u.id) resetting.users ≡ some u)
    × IsReset hashing t meta "new long secret" u resetting
        (reset_consume hashing t meta "tok" "new long secret" resetting).0
unfolding reset_consume consume_reset_token find snapshot_drive.Auth.ResetTokens.is_usable
    validate_policy size snapshot_drive.Prelude.Text.before lower contains check_history
    snapshot_drive.Auth.Passwords.matches_any get_password_history
    snapshot_drive.Prelude.Sort.sort_by snapshot_drive.Prelude.Table.select
    snapshot_drive.Auth.Users.update_password
reset_consume_lem_example =
    (reset_consume_lem hashing t meta "tok" "new long secret" resetting).0 refl

password_change_lem_example :
    (u : User) × (some ana ≡ some u)
    × IsChange hashing t meta "correct horse" "new long secret" u signed_in
        (password_change hashing t meta "correct horse" "new long secret" shown signed_in).0
unfolding password_change snapshot_drive.Auth.Passwords.verify_password validate_policy size
    snapshot_drive.Prelude.Text.before lower contains check_history
    snapshot_drive.Auth.Passwords.matches_any get_password_history
    snapshot_drive.Prelude.Sort.sort_by snapshot_drive.Prelude.Table.select
    snapshot_drive.Auth.Users.update_password find
password_change_lem_example =
    (password_change_lem hashing t meta "correct horse" "new long secret" shown signed_in).0 refl

abbrev bo : User
bo = record ana { id = 8; email = "bo@lab.co"; role = "operator" }

abbrev staff : Db
staff = record signed_in { users = ana ∷ bo ∷ [] }

disabling_lem_example :
    (admin : User) × (some ana ≡ some admin) × (str_eq admin.role "admin" ≡ true)
unfolding snapshot_drive.Auth.Admin.handle snapshot_drive.Auth.Middleware.require_any_role
    snapshot_drive.Auth.Users.is_member snapshot_drive.Auth.Users.set_status find
disabling_lem_example = (disabling_lem t none 8 shown staff refl).0

abbrev newcomer : Db
newcomer = record db { users = record ana { mfa_secret = none } ∷ [] }

abbrev confirmation : Confirmation
confirmation = record {
  email = "ana@lab.co";
  password = "correct horse";
  secret = "JBSW";
  code = "123456";
}

mfa_enroll_confirm_lem_example :
    (u : User) × (some (record ana { mfa_secret = none }) ≡ some u)
    × (may_enrol services t confirmation u newcomer ≡ true)
    × (s : Session) × (enrolled (new_session "s1" "c1" 103 7 none none true) ≡ enrolled s)
    × ((mfa_enroll_confirm services "enc" [] "s1" "c1" t meta confirmation newcomer).0.sessions
        ≡ [] ++ s ∷ [])
    × (s.user_id ≡ u.id)
    × (s.mfa_verified ≡ true)
unfolding mfa_enroll_confirm lower snapshot_drive.Prelude.Text.strip find is_locked
    snapshot_drive.Auth.Passwords.verify_password snapshot_drive.Auth.Mfa.verify_totp
    snapshot_drive.Auth.Sessions.create_session
mfa_enroll_confirm_lem_example =
    (mfa_enroll_confirm_lem services "enc" [] "s1" "c1" t meta confirmation newcomer).0 refl
