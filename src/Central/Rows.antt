-- ===== src/Central/Rows.antt =====
-- The rows of the tables clients, targets, central_tokens and central_events, as
-- backend/models/db.py creates them. A timestamp is a number of microseconds.
use snapshot_drive.Prelude.{ℕ, String, Option}
use snapshot_drive.Prelude.Json.{Fields}

pub record Client : Type 0 where
  pub id : ℕ
  pub proyecto : String
  pub organizacion : Option String
  pub contacto : Option String
  pub retencion_meses : Option ℕ
  pub notas : Option String
  pub created_at : ℕ
  pub updated_at : ℕ

pub record Target : Type 0 where
  pub id : ℕ
  pub client_id : ℕ
  pub category : String
  pub subkey : String
  pub label : String
  pub entorno : Option String
  pub pais : Option String
  pub last_exec_ts : Option String
  pub last_exec_status : String
  pub last_size_bytes : Option ℕ
  pub total_size_bytes : Option ℕ
  pub count_files : Option ℕ
  pub oldest_backup_ts : Option String
  pub newest_backup_ts : Option String
  pub last_heartbeat_ts : ℕ
  pub snapctl_version : Option String
  pub rclone_version : Option String
  pub created_at : ℕ

pub record Token : Type 0 where
  pub id : ℕ
  pub token_hash : String
  pub client_id : ℕ
  pub label : String
  pub scope : String
  pub created_at : ℕ
  pub expires_at : Option ℕ
  pub last_used_at : Option ℕ
  pub revoked_at : Option ℕ

pub record Event : Type 0 where
  pub id : ℕ
  pub event_id : String
  pub received_at : ℕ
  pub token_id : ℕ
  pub client_id : ℕ
  pub target_id : ℕ
  pub op : String
  pub status : String
  pub payload : Fields
  pub src_ip : Option String
