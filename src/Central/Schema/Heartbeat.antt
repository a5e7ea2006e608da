-- ===== src/Central/Schema/Heartbeat.antt =====
-- validate_heartbeat of backend/central/schema.py.
use snapshot_drive.Prelude.{Result, err, ◌>>=◌, ◌>>◌, require, ok}
use snapshot_drive.Prelude.Json
use snapshot_drive.Prelude.Json.{Json, Fields, obj}
use snapshot_drive.Central.Schema.{
  require_str, check_client, Outside, check_target, Error, check_operation, optional_dict,
  schema_error, optional_count, check_totals,
}
use snapshot_drive.Central.Schema.Inventory.{validate_inventory}

-- eid = _require(p, "event_id", (str,)); uuid.UUID(eid)
unfoldable pub check_event_id : Outside → Fields → Result Error (Unit {0})
unfolding require_str
check_event_id o p = do eid ← require_str "event_id" p; require (o.is_uuid eid) schema_error

unfoldable pub check_blocks : Fields → Result Error (Unit {0})
unfolding validate_inventory
check_blocks p = do
  optional_dict (optional_count "size_bytes") (Json.get_field "snapshot" p)
  optional_dict check_totals (Json.get_field "totals" p)
  optional_dict validate_inventory (Json.get_field "inventory" p)

-- The payload itself is returned: the validation changes nothing.
unfoldable pub validate_fields : Outside → Fields → Result Error Fields
unfolding check_event_id check_client check_target check_operation check_blocks require_str
validate_fields o p = do
  check_event_id o p
  ts ← require_str "ts" p
  check_client p
  check_target p
  check_operation o.text_of p
  check_blocks p
  ok p

unfoldable pub validate_heartbeat : Outside → Json → Result Error Fields
validate_heartbeat o (obj p) = validate_fields o p
validate_heartbeat o _ = err schema_error
