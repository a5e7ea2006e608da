-- ===== src/Central/Alerts/Rules/Shrink.antt =====
-- When the rules fire and resolve, in terms of the payload.
use snapshot_drive.Prelude.Json
use snapshot_drive.Prelude.{
  ℕ, ◌+◌, ◌*◌, ◌≤◌, ◌<◌, arith, if◌then◌else◌, List, ◌-◌, ◌≡◌, Bool, Option, leb, false, Bool-cases,
  none, some, not, inl, is_some, inr, suc, true, ◌∷◌, [], zero, ◌∙◌, ◌||◌, ok, >>=-eq-ok,
  ok_injective, refl, sym, subst, ap, ◌++◌,
}
use native.Mathlib.Nat.{mul-le-mul_right}
use snapshot_drive.Central.Alerts.Rules.{
  shrink_tenths, evaluate_heartbeat, at_least, resolves_keys, Finding, size_of, Rounding,
  shrink_findings, folder_findings, missing_paths, attribute_error, type_error,
}
use snapshot_drive.Central.Alerts.Store.{
  AlertType, Severity, backup_shrink, folder_missing, critical, warning, no_heartbeat, same_type,
}
use snapshot_drive.Prelude.Json.{Json, Fields}

-- The rounding gives a nearest number of tenths of the percentage, either one at a tie.
abbrev pub IsNearest : Rounding → ℕ → ℕ → Type 0
IsNearest rounded d prev =
    (2 * (rounded d prev * prev) ≤ 2000 * d + prev)
    × (2000 * d ≤ 2 * (rounded d prev * prev) + prev)

-- The threshold test on the rounded percentage, without the rounding.
at_least-shrink_tenths :
    (rounded : Rounding) (threshold prev new : ℕ)
    → IsNearest rounded (prev - new) prev
    → 0 < prev
    → 1 ≤ threshold
    → (20 * (threshold * prev) < 2000 * (prev - new) + prev
        → at_least threshold (shrink_tenths rounded prev new) ≡ true)
      × (2000 * (prev - new) + prev < 20 * (threshold * prev)
          → at_least threshold (shrink_tenths rounded prev new) ≡ false)
unfolding shrink_tenths
at_least-shrink_tenths rounded threshold prev new near pos one = elim (Bool-cases (leb new prev)) [
  | inl down ↦ rw down (
    λ h. elim (Bool-cases (leb (10 * threshold) (rounded (prev - new) prev))) [
      | inl yes_it_is ↦ yes_it_is
      | inr less ↦
          let below : rounded (prev - new) prev + 1 ≤ 10 * threshold = ground arith in
          absurd (omega (arith, mul-le-mul_right prev below))
    ],
    λ h. elim (Bool-cases (leb (10 * threshold) (rounded (prev - new) prev))) [
      | inl more ↦
          let above : 10 * threshold ≤ rounded (prev - new) prev = ground arith in
          absurd (omega (arith, mul-le-mul_right prev above))
      | inr less ↦ less
    ],
  )
  | inr up ↦ rw up (
    λ h.
        (let none_lost : prev - new ≡ 0 = ground arith in
          absurd (omega (arith, none_lost, mul-le-mul_right prev one))),
    λ h. ground arith,
  )
]

-- The severity of the finding of this type, if there is one.
abbrev pub severity_of : AlertType → List Finding → Option Severity
severity_of kind [] = none
severity_of kind (f ∷ fs) =
    let rest = severity_of kind fs in if same_type f.kind kind then some f.severity else rest

abbrev pub resolves : AlertType → List AlertType → Bool
resolves kind [] = false
resolves kind (k ∷ ks) = same_type k kind || resolves kind ks

-- The parts of an evaluation that raised nothing.
evaluate_heartbeat-parts :
    (rounded : Rounding) (payload : Fields) (prev : Option ℕ) (threshold : ℕ)
    {findings : List Finding}
    → evaluate_heartbeat rounded payload prev threshold ≡ ok findings
    → (host_meta : Fields) × (Json.or_empty attribute_error "host_meta" payload ≡ ok host_meta)
      × (folders : List Finding) × (folder_findings (missing_paths host_meta) ≡ ok folders)
      × (totals : Fields) × (Json.or_empty attribute_error "totals" payload ≡ ok totals)
      × (findings
          ≡ folders
            ++ shrink_findings rounded threshold prev
                (size_of (Json.get_field "size_bytes" totals)))
unfolding evaluate_heartbeat
evaluate_heartbeat-parts rounded payload prev threshold done =
    let (host_meta, e, f) = >>=-eq-ok (Json.or_empty attribute_error "host_meta" payload) _ done in
    let (folders, e', f') = >>=-eq-ok (folder_findings (missing_paths host_meta)) _ f in
    let (totals, e'', f'') = >>=-eq-ok (Json.or_empty attribute_error "totals" payload) _ f' in
    (host_meta, e, folders, e', totals, e'', sym (ok_injective f''))

folder_findings_lem :
    (missing : Option Json) (folders more : List Finding)
    → folder_findings missing ≡ ok folders
    → (severity_of backup_shrink (folders ++ more) ≡ severity_of backup_shrink more)
      × (is_some (severity_of folder_missing (folders ++ more))
          ≡ (is_some missing || is_some (severity_of folder_missing more)))
unfolding folder_findings
folder_findings_lem none folders more done =
    let none_there : [] ≡ folders = ok_injective done in
    subst
      (λ x.
        (severity_of backup_shrink (x ++ more) ≡ severity_of backup_shrink more)
        × (is_some (severity_of folder_missing (x ++ more))
            ≡ is_some (severity_of folder_missing more)))
      none_there (refl, refl)
folder_findings_lem (some paths) folders more done =
    let (listed, e, f) = >>=-eq-ok (Json.list_of type_error paths) _ done in
    subst
      (λ x.
        (severity_of backup_shrink (x ++ more) ≡ severity_of backup_shrink more)
        × (is_some (severity_of folder_missing (x ++ more)) ≡ true))
      (ok_injective f) (refl, refl)

shrink_findings_lem :
    (rounded : Rounding) (threshold prev new : ℕ)
    → IsNearest rounded (prev - new) prev
    → 0 < prev
    → 1 ≤ threshold
    → let loss = 2000 * (prev - new) + prev in
      let found = severity_of backup_shrink (shrink_findings rounded threshold (some prev) new) in
      (loss < 20 * (threshold * prev) → found ≡ none)
      × (20 * (threshold * prev) < loss → loss < 1000 * prev → found ≡ some warning)
      × (20 * (threshold * prev) < loss → 1000 * prev < loss → found ≡ some critical)
unfolding shrink_findings
shrink_findings_lem rounded threshold zero new near pos one = absurd (omega arith)
shrink_findings_lem rounded threshold (suc p) new near pos one =
    let (fires, quiet) = at_least-shrink_tenths rounded threshold (suc p) new near pos one in
    let (half, less) = at_least-shrink_tenths rounded 50 (suc p) new near pos (omega arith) in
    (
      λ h. rw (quiet h) refl,
      λ h k. rw (fires h, less (omega arith)) refl,
      λ h k. rw (fires h, half (omega arith)) refl,
    )

pub severity_of-backup_shrink :
    (rounded : Rounding) (payload totals : Fields) (prev threshold : ℕ) (findings : List Finding)
    → evaluate_heartbeat rounded payload (some prev) threshold ≡ ok findings
    → Json.or_empty attribute_error "totals" payload ≡ ok totals
    → IsNearest rounded (prev - size_of (Json.get_field "size_bytes" totals)) prev
    → 0 < prev
    → 1 ≤ threshold
    → let loss = 2000 * (prev - size_of (Json.get_field "size_bytes" totals)) + prev in
      (loss < 20 * (threshold * prev) → severity_of backup_shrink findings ≡ none)
      × (20 * (threshold * prev) < loss
          → loss < 1000 * prev
          → severity_of backup_shrink findings ≡ some warning)
      × (20 * (threshold * prev) < loss
          → 1000 * prev < loss
          → severity_of backup_shrink findings ≡ some critical)
severity_of-backup_shrink rounded payload totals prev threshold findings done given near pos one =
    let (host_meta, _, folders, e, totals', e', parts) =
      evaluate_heartbeat-parts rounded payload (some prev) threshold done in
    let size = λ (x : Fields). size_of (Json.get_field "size_bytes" x) in
    let same : totals' ≡ totals = ok_injective (sym e' ∙ given) in
    let found =
      ap (severity_of backup_shrink) parts
      ∙ (folder_findings_lem (missing_paths host_meta) folders
          (shrink_findings rounded threshold (some prev) (size totals')) e).0
      ∙ ap (λ x. severity_of backup_shrink (shrink_findings rounded threshold (some prev) (size x)))
          same in
    let (quiet, warns, alarms) =
      shrink_findings_lem rounded threshold prev (size totals) near pos one in
    (λ h. found ∙ quiet h, λ h k. found ∙ warns h k, λ h k. found ∙ alarms h k)

shrink_findings-folder_missing :
    (rounded : Rounding) (threshold : ℕ) (prev : Option ℕ) (new : ℕ)
    → severity_of folder_missing (shrink_findings rounded threshold prev new) ≡ none
unfolding shrink_findings
shrink_findings-folder_missing rounded threshold none new = refl
shrink_findings-folder_missing rounded threshold (some zero) new = refl
shrink_findings-folder_missing rounded threshold (some (suc p)) new = ground arith

-- Every heartbeat that the rules can evaluate either reports missing folders or resolves the alert
-- about them, never both. It always resolves the alert about silence, and never the one about a
-- shrink.
pub resolves_keys_lem :
    (rounded : Rounding) (payload : Fields) (prev : Option ℕ) (threshold : ℕ)
    (findings : List Finding)
    → evaluate_heartbeat rounded payload prev threshold ≡ ok findings
    → (keys : List AlertType) × (resolves_keys payload ≡ ok keys)
      × (resolves folder_missing keys ≡ not (is_some (severity_of folder_missing findings)))
      × (resolves no_heartbeat keys ≡ true)
      × (resolves backup_shrink keys ≡ false)
unfolding resolves_keys
resolves_keys_lem rounded payload prev threshold findings done =
    let (host_meta, e, folders, e', totals, _, parts) =
      evaluate_heartbeat-parts rounded payload prev threshold done in
    let more =
      shrink_findings rounded threshold prev (size_of (Json.get_field "size_bytes" totals)) in
    let reported =
      ap (λ x. is_some (severity_of folder_missing x)) parts
      ∙ (folder_findings_lem (missing_paths host_meta) folders more e').1 in
    let silent =
      shrink_findings-folder_missing rounded threshold prev
        (size_of (Json.get_field "size_bytes" totals)) in
    (
      no_heartbeat ∷ (if is_some (missing_paths host_meta) then [] else folder_missing ∷ []),
      rw e refl,
      rw (reported, silent) (ground arith),
      ground arith,
      ground arith,
    )

no_totals :
    (payload : Fields)
    → Json.get_field "totals" payload ≡ none
    → Json.or_empty attribute_error "totals" payload ≡ ok Json.end
unfolding Json.or_empty
no_totals payload absent = rw (absent, Json.or_empty) refl

-- A heartbeat with no totals counts as a backup of size 0: with a previous size it reports a
-- critical shrink at every threshold up to 100 percent.
pub no_totals_critical :
    (rounded : Rounding) (payload : Fields) (prev threshold : ℕ) (findings : List Finding)
    → evaluate_heartbeat rounded payload (some prev) threshold ≡ ok findings
    → Json.get_field "totals" payload ≡ none
    → IsNearest rounded prev prev
    → 0 < prev
    → 1 ≤ threshold
    → threshold ≤ 100
    → severity_of backup_shrink findings ≡ some critical
no_totals_critical rounded payload prev threshold findings done absent near pos one most =
    let size : size_of (Json.get_field "size_bytes" Json.end) ≡ 0 = unfold Json.get_field in refl in
    let lost : prev - size_of (Json.get_field "size_bytes" Json.end) ≡ prev = omega (arith, size) in
    let (_, _, alarms) =
      severity_of-backup_shrink rounded payload Json.end prev threshold findings done
        (no_totals payload absent) (rw lost near) pos one in
    alarms (omega (arith, lost, mul-le-mul_right prev most)) (omega (arith, lost))
