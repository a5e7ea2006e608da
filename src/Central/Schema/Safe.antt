-- ===== src/Central/Schema/Safe.antt =====
-- What holds of a payload that the validation lets through.
use snapshot_drive.Prelude.{
  String, ◌≡◌, Bool, true, some, arith, require, ok, List, Option, >>=-eq-ok, ok_injective, none,
  ap, refl, subst,
}
use snapshot_drive.Prelude.Json
use snapshot_drive.Prelude.Json.{Json, Fields, str, obj}
use snapshot_drive.Central.Schema.{
  require_str, require_dict, Error, schema_error, path_safe, require_path_safe, require_among,
  category_values, op_values, check_client, check_target, check_operation, among, status_values,
  Outside, among_value,
}
use snapshot_drive.Central.Schema.Names.{IsName, path_safe-IsName}
use snapshot_drive.Central.Schema.Heartbeat.{
  check_event_id, validate_heartbeat, validate_fields, check_blocks,
}

-- The dict has a text under the key, of which the predicate holds.
abbrev pub HasText : (String → Type 0) → String → Fields → Type 0
HasText P key d = (s : String) × (Json.get_field key d ≡ some (str s)) × P s

abbrev pub HasDict : (Fields → Type 0) → String → Fields → Type 0
HasDict P key d = (inner : Fields) × (Json.get_field key d ≡ some (obj inner)) × P inner

require_str_sound :
    (key : String) (d : Fields) {s : String}
    → require_str key d ≡ ok s
    → Json.get_field key d ≡ some (str s)
unfolding require_str
require_str_sound key d h = ground arith

require_dict_sound :
    (key : String) (d : Fields) {inner : Fields}
    → require_dict key d ≡ ok inner
    → Json.get_field key d ≡ some (obj inner)
unfolding require_dict
require_dict_sound key d h = ground arith

pub require_sound : (b : Bool) → require {E = Error} b schema_error ≡ ok tt → b ≡ true
require_sound b h = ground arith

abbrev pub IsAmong : List String → String → Type 0
IsAmong values s = among s values ≡ true

require_path_safe_sound : (s : String) → require_path_safe s ≡ ok tt → IsName s
unfolding require_path_safe
require_path_safe_sound s h = path_safe-IsName s (require_sound (path_safe s) h)

require_among_sound :
    (key : String) (values : List String) (d : Fields)
    → require_among key values d ≡ ok tt
    → HasText (IsAmong values) key d
unfolding require_among
require_among_sound key values d h = at_value (Json.get_field key d) refl h
  where
    at_value :
        (v : Option Json)
        → Json.get_field key d ≡ v
        → among_value values v ≡ ok tt
        → HasText (IsAmong values) key d
    at_value (some (str s)) e q = (s, e, require_sound (among s values) q)
    at_value none e q = cc
    at_value (some _) e q = cc

-- The block of the client has a project that is a name.
abbrev pub SafeClient : Fields → Type 0
SafeClient client = HasText IsName "proyecto" client

-- The block of the target has a known category, and a subkey and a label that are names.
abbrev pub SafeTarget : Fields → Type 0
SafeTarget target =
    HasText (IsAmong category_values) "category" target
    × HasText IsName "subkey" target
    × HasText IsName "label" target

abbrev pub KnownOperation : Fields → Type 0
KnownOperation op =
    HasText (IsAmong op_values) "op" op × HasText (IsAmong status_values) "status" op

check_client_sound : (p : Fields) → check_client p ≡ ok tt → HasDict SafeClient "client" p
unfolding check_client
check_client_sound p h =
    let (client, d, h₁) = >>=-eq-ok (require_dict "client" p) _ h in
    let (proyecto, t, h₂) = >>=-eq-ok (require_str "proyecto" client) _ h₁ in
    let (_, safe, _) = >>=-eq-ok (require_path_safe proyecto) _ h₂ in
    (
      client,
      require_dict_sound "client" p d,
      (proyecto, require_str_sound "proyecto" client t, require_path_safe_sound proyecto safe),
    )

check_target_sound : (p : Fields) → check_target p ≡ ok tt → HasDict SafeTarget "target" p
unfolding check_target
check_target_sound p h =
    let (target, d, h₁) = >>=-eq-ok (require_dict "target" p) _ h in
    let (category, c, h₂) = >>=-eq-ok (require_str "category" target) _ h₁ in
    let (_, known, h₃) = >>=-eq-ok (require (among category category_values) schema_error) _ h₂ in
    let (subkey, s, h₄) = >>=-eq-ok (require_str "subkey" target) _ h₃ in
    let (_, safe, h₅) = >>=-eq-ok (require_path_safe subkey) _ h₄ in
    let (label, l, last) = >>=-eq-ok (require_str "label" target) _ h₅ in
    (
      target,
      require_dict_sound "target" p d,
      (
        (category, require_str_sound "category" target c, require_sound _ known),
        (subkey, require_str_sound "subkey" target s, require_path_safe_sound subkey safe),
        (label, require_str_sound "label" target l, require_path_safe_sound label last),
      ),
    )

check_operation_sound :
    (text_of : Json → String) (p : Fields)
    → check_operation text_of p ≡ ok tt
    → HasDict KnownOperation "operation" p
unfolding check_operation
check_operation_sound text_of p h =
    let (op, d, h₁) = >>=-eq-ok (require_dict "operation" p) _ h in
    let (_, known, h₂) = >>=-eq-ok (require_among "op" op_values op) _ h₁ in
    let (_, status, h₃) = >>=-eq-ok (require_among "status" status_values op) _ h₂ in
    (
      op,
      require_dict_sound "operation" p d,
      (
        require_among_sound "op" op_values op known,
        require_among_sound "status" status_values op status,
      ),
    )

check_event_id_sound :
    (o : Outside) (p : Fields)
    → check_event_id o p ≡ ok tt
    → HasText (λ s. o.is_uuid s ≡ true) "event_id" p
unfolding check_event_id
check_event_id_sound o p h =
    let (eid, t, h₁) = >>=-eq-ok (require_str "event_id" p) _ h in
    (eid, require_str_sound "event_id" p t, require_sound (o.is_uuid eid) h₁)

-- A payload that the validation lets through is a JSON object and comes back unchanged; its
-- event_id is a UUID; its project, and the subkey and the label of its target, are 1 to 64 letters
-- and digits of ASCII, dots, dashes and underscores, with at most one line feed behind them; the
-- category, the operation and the status are known ones.
pub validate_heartbeat_sound :
    (o : Outside) (payload : Json) (p : Fields)
    → validate_heartbeat o payload ≡ ok p
    → (payload ≡ obj p)
      × HasText (λ s. o.is_uuid s ≡ true) "event_id" p
      × HasDict SafeClient "client" p
      × HasDict SafeTarget "target" p
      × HasDict KnownOperation "operation" p
unfolding validate_heartbeat validate_fields
validate_heartbeat_sound o (obj fields) p h =
    let (_, e, h₁) = >>=-eq-ok (check_event_id o fields) _ h in
    let (_, t, h₂) = >>=-eq-ok (require_str "ts" fields) _ h₁ in
    let (_, c, h₃) = >>=-eq-ok (check_client fields) _ h₂ in
    let (_, g, h₄) = >>=-eq-ok (check_target fields) _ h₃ in
    let (_, q, h₅) = >>=-eq-ok (check_operation o.text_of fields) _ h₄ in
    let (_, b, h₆) = >>=-eq-ok (check_blocks fields) _ h₅ in
    let same : fields ≡ p = ok_injective h₆ in
    (
      ap obj same,
      subst (λ f. HasText (λ s. o.is_uuid s ≡ true) "event_id" f) same
          (check_event_id_sound o fields e),
      subst (HasDict SafeClient "client") same (check_client_sound fields c),
      subst (HasDict SafeTarget "target") same (check_target_sound fields g),
      subst (HasDict KnownOperation "operation") same (check_operation_sound o.text_of fields q),
    )
validate_heartbeat_sound o _ p h = cc
