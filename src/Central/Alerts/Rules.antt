-- ===== src/Central/Alerts/Rules.antt =====
-- backend/central/alerts/rules.py: what a heartbeat gives rise to. The percentage, a float rounded
-- to one place, is a number of tenths; the rounding of floats is a parameter. The sizes are those
-- that the validation of the payload lets through.
use snapshot_drive.Prelude.{
  ℕ, zero, suc, ◌-◌, ◌*◌, ◌/◌, ◌%◌, String, Bool, true, ◌&&◌, Option, none, some, List, [], ◌∷◌,
  ◌++◌, leb, ◌==◌, if◌then◌else◌, is_some, Result, ok, ◌>>=◌,
}
pub mod Shrink
use Prim.Native.String
use snapshot_drive.Prelude.Json.{Json, num, real, boolean, arr, Fields, end, field}
use snapshot_drive.Prelude.Json
use snapshot_drive.Central.Alerts.Store.{
  AlertType, Severity, folder_missing, backup_shrink, no_heartbeat, warning, critical,
}
use snapshot_drive.Prelude.Text.{decimal}

pub record Finding : Type 0 where
  pub kind : AlertType
  pub severity : Severity
  pub detail : Fields

-- A host_meta or totals that is true and no dict, and missing_paths that cannot be iterated.
pub data RuleError : Type 0 where
  attribute_error type_error : RuleError

-- A number of tenths of a percent, down or up from the previous size.
pub data Tenths : Type 0 where
  drop growth : ℕ → Tenths

-- Python's round(100 * d / prev, 1) of floats, in tenths, for a difference `d` of sizes.
abbrev pub Rounding : Type 0
Rounding = ℕ → ℕ → ℕ

-- round(100 * (prev - new) / prev, 1)
unfoldable pub shrink_tenths : Rounding → ℕ → ℕ → Tenths
shrink_tenths rounded prev new =
    if leb new prev then drop (rounded (prev - new) prev) else growth (rounded (new - prev) prev)

-- pct >= threshold, for a threshold in whole percent; a growth that rounds to 0 is 0
abbrev pub at_least : ℕ → Tenths → Bool
at_least threshold (drop t) = leb (10 * threshold) t
at_least threshold (growth t) = t == 0 && threshold == 0

-- The size that a validated payload has in a field: an int, or a bool, which is an int to Python.
abbrev pub size_of : Option Json → ℕ
size_of (some (num n)) = n
size_of (some (boolean true)) = 1
size_of _ = 0

-- host_meta.get("missing_paths") or []
unfoldable pub missing_paths : Fields → Option Json
missing_paths host_meta = elim (Json.get_field "missing_paths" host_meta) [
  | some paths ↦ if Json.truthy paths then some paths else none
  | none ↦ none
]

-- the tenths as Python prints the float
abbrev pub tenths_json : Tenths → Json
tenths_json (drop t) = real (String.◌++◌ (decimal (t / 10)) (String.◌++◌ "." (decimal (t % 10))))
tenths_json (growth t) =
    real (String.◌++◌ "-" (String.◌++◌ (decimal (t / 10)) (String.◌++◌ "." (decimal (t % 10)))))

unfoldable pub folder_findings : Option Json → Result RuleError (List Finding)
folder_findings none = ok []
folder_findings (some paths) = do
  listed ← Json.list_of type_error paths
  ok (
      record {
        kind = folder_missing;
        severity = warning;
        detail = field "missing_paths" (arr listed) end;
      }
      ∷ [])

unfoldable pub shrink_findings : Rounding → ℕ → Option ℕ → ℕ → List Finding
unfolding shrink_tenths
shrink_findings rounded threshold none new = []
shrink_findings rounded threshold (some zero) new = []
shrink_findings rounded threshold (some (suc p)) new =
    let prev = suc p in
    let pct = shrink_tenths rounded prev new in
    if at_least threshold pct
    then record {
      kind = backup_shrink;
      severity = if at_least 50 pct then critical else warning;
      detail =
          field "prev_bytes" (num prev)
            (field "new_bytes" (num new) (field "pct" (tenths_json pct) end));
    }
      ∷ []
    else []

unfoldable pub evaluate_heartbeat :
    Rounding → Fields → Option ℕ → ℕ → Result RuleError (List Finding)
unfolding folder_findings shrink_findings missing_paths
evaluate_heartbeat rounded payload prev threshold = do
  host_meta ← Json.or_empty attribute_error "host_meta" payload
  folders ← folder_findings (missing_paths host_meta)
  totals ← Json.or_empty attribute_error "totals" payload
  let new = size_of (Json.get_field "size_bytes" totals) in
      ok (folders ++ shrink_findings rounded threshold prev new)

unfoldable pub resolves_keys : Fields → Result RuleError (List AlertType)
unfolding missing_paths
resolves_keys payload = do
  host_meta ← Json.or_empty attribute_error "host_meta" payload
  ok (no_heartbeat ∷ (if is_some (missing_paths host_meta) then [] else folder_missing ∷ []))
