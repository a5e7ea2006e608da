-- ===== src/Auth/Audit.antt =====
-- backend/auth/audit.py: the log of what happened to accounts. The log line is output only, and
-- `detail` is kept as the value whose text the row holds.
use snapshot_drive.Prelude.{
  ℕ, String, ◌||◌, Option, List, [], ◌∷◌, ◌++◌, str_eq, Result, ◌>>=◌, require, ok, err,
}

pub data ActorError : Type 0 where
  invalid_actor : ActorError

pub record AuditEvent : Type 0 where
  pub actor : String
  pub user_id : Option ℕ
  pub email : Option String
  pub event : String
  pub ip : Option String
  pub user_agent : Option String
  pub detail : Option String
  pub created_at : ℕ

-- The event's text fields as the callers give them.
unfoldable pub write_event :
    ℕ
    → String
    → String
    → Option ℕ
    → Option String
    → Option String
    → Option String
    → Option String
    → List AuditEvent
    → Result ActorError (List AuditEvent)
write_event now actor event user_id email ip user_agent detail rows = do
  _ ← require (str_eq actor "web" || (str_eq actor "cli" || str_eq actor "system")) invalid_actor
  ok (
      rows
      ++ record {
        actor = actor;
        user_id = user_id;
        email = email;
        event = event;
        ip = ip;
        user_agent = user_agent;
        detail = detail;
        created_at = now;
      }
        ∷ [])

-- ip, ua = _client_meta()
pub record Meta : Type 0 where
  pub ip : Option String
  pub user_agent : Option String

-- An event that a handler writes; its actor is one that write_event accepts.
unfoldable pub web_event :
    ℕ → String → Option ℕ → Option String → Meta → Option String → List AuditEvent → List AuditEvent
unfolding write_event
web_event now event user_id email meta detail rows =
    elim (write_event now "web" event user_id email meta.ip meta.user_agent detail rows) [
      | ok rows' ↦ rows'
      | err _ ↦ rows
    ]
