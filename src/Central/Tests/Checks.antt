-- ===== src/Central/Tests/Checks.antt =====
-- The theorems about the validation, the tokens and the permissions at concrete inputs.
use snapshot_drive.Prelude.{
  Option, List, ◌≤◌, ◌≢◌, String, ◌≡◌, refl, true, none, some, [], ◌∷◌, arith, ok,
}
use snapshot_drive.Prelude.Text.{size}
use snapshot_drive.Prelude.Json
use snapshot_drive.Prelude.Json.{Json, Fields, Items, obj, str, arr, num, field, end, nil, cons}
use snapshot_drive.Central.Tests.{Token, payload, hasher, secret, token, world}
use snapshot_drive.Central.Tokens.{verify, stamp, issue_row, used, revoke, TokenInfo}
use snapshot_drive.Central.Tokens.Verify.{IsAnswer, verify_lem, issue-verify, revoke-verify, IsHash}
use snapshot_drive.Central.Schema.{path_safe}
use snapshot_drive.Central.Schema.Inventory.{validate_inventory}
use snapshot_drive.Central.Schema.Safe.{
  validate_heartbeat_sound, HasText, HasDict, SafeClient, SafeTarget, KnownOperation,
}
use snapshot_drive.Central.Schema.Paths.{validate_inventory_bounds, files_of}

is_hash : (plaintext : String) → IsHash hasher plaintext token
is_hash plaintext e = ground arith

verify_lem_example :
    (rows' : List Token) × (info : Option TokenInfo) × (verify hasher 500 secret (token ∷ [])
      ≡ ok (rows', info))
    × IsAnswer 500 (token ∷ []) rows' (some token) info
unfolding size snapshot_drive.Prelude.Table.find snapshot_drive.Prelude.Table.select
verify_lem_example = verify_lem hasher 500 secret (token ∷ []) (is_hash secret, tt)

issue-verify_example :
    verify hasher 700 "fedcba9876543210"
      (token ∷ issue_row hasher 4 600 "fedcba9876543210" 5 "test" "heartbeat" none ∷ [])
    ≡ ok (
      token ∷ used 700 (issue_row hasher 4 600 "fedcba9876543210" 5 "test" "heartbeat" none) ∷ [],
      some (record { id = 4; client_id = 5; scope = "heartbeat"; label = "test" }),
    )
unfolding size snapshot_drive.Prelude.Table.find snapshot_drive.Prelude.Table.select
    snapshot_drive.Central.Tokens.issue snapshot_drive.Prelude.Table.update
issue-verify_example =
    issue-verify hasher 4 600 700 5 "fedcba9876543210" "test" "heartbeat" none (token ∷ [])
      (is_hash "fedcba9876543210", tt) refl (omega arith) refl refl

-- another token of the same text
abbrev twin : TokenInfo
twin = record { id = 4; client_id = 5; scope = "heartbeat"; label = "prod" }

revoke-verify_example : twin.id ≢ 3
unfolding verify size snapshot_drive.Prelude.Table.select revoke snapshot_drive.Prelude.Table.update
revoke-verify_example =
    revoke-verify hasher 600 700 3 secret (token ∷ record token { id = 4 } ∷ [])
      (record token { revoked_at = some 600 }
        ∷ record token { id = 4; last_used_at = some 700 }
        ∷ [])
      twin refl

validate_heartbeat_sound_example :
    (obj (payload 1000) ≡ obj (payload 1000))
    × HasText (λ s. true ≡ true) "event_id" (payload 1000)
    × HasDict SafeClient "client" (payload 1000)
    × HasDict SafeTarget "target" (payload 1000)
    × HasDict KnownOperation "operation" (payload 1000)
unfolding snapshot_drive.Central.Schema.Heartbeat.validate_heartbeat
    snapshot_drive.Central.Schema.Heartbeat.validate_fields Json.get_field path_safe
    snapshot_drive.Central.Schema.optional_count
validate_heartbeat_sound_example =
    validate_heartbeat_sound world.schema (obj (payload 1000)) (payload 1000) refl

abbrev file : Fields
file =
    field "name" (str "a.zst") (
      field "size" (num 7) (field "ts" (str "20260101_120000") (field "path" (str "os/a.zst") end)))

abbrev inventory : Fields
inventory =
    field "leaves"
      (arr (
        cons
          (obj (
            field "category" (str "os") (
              field "subkey" (str "linux")
                (field "label" (str "srv1") (field "files" (arr (cons (obj file) nil)) end)))))
          nil))
      end

validate_inventory_bounds_example :
    (leaves : Items) × (Json.get_field "leaves" inventory ≡ some (arr leaves))
    × (Json.length leaves ≤ 64)
    × (files_of leaves ≤ 200)
unfolding validate_inventory Json.get_field Json.length
    snapshot_drive.Central.Schema.Inventory.check_leaves
    snapshot_drive.Central.Schema.Inventory.check_leaf snapshot_drive.Central.Schema.require_str
    snapshot_drive.Central.Schema.require_path_safe path_safe
    snapshot_drive.Central.Schema.Inventory.check_files
    snapshot_drive.Central.Schema.Inventory.check_file size
validate_inventory_bounds_example = validate_inventory_bounds inventory refl
