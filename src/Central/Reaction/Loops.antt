-- ===== src/Central/Reaction/Loops.antt =====
-- What the loops over the findings and over the types to resolve do to the active alerts.
use snapshot_drive.Prelude.{
  ℕ, ◌+◌, ◌*◌, ◌≡◌, refl, sym, ap, ◌∙◌, subst, inl, inr, Bool, true, false, not, ◌&&◌, ◌||◌, none,
  some, List, [], ◌∷◌, arith, ==_self, Bool-cases, Option-cases, is_some, some_of, ||_assoc,
}
use snapshot_drive.Prelude.Table.{find, find-update_apart, is_some-find-update, is_some-find-append}
use snapshot_drive.Prelude.Json.{Fields}
use snapshot_drive.Central.Alerts.Store.{
  Alert, AlertType, Key, Severity, active_with, fire, by_id, get_by_id, resolved,
  resolve_active_by_key, mark_notified, notified,
}
use snapshot_drive.Central.Alerts.Store.Fire.{
  same_key, same_key_sound, is_some-find-fire, resolve_active_by_key_lem,
}
use snapshot_drive.Central.Alerts.Store.Active.{
  IsUnique, fire-IsUnique, mark_notified-IsUnique, resolve-IsUnique,
}
use snapshot_drive.Central.Alerts.Rules.{Finding}
use snapshot_drive.Central.Alerts.Dispatch.{Subject, notify}
use snapshot_drive.Central.Reaction.{Outside, alert_key, notify_new, fire_findings, resolve_types}

find-by_id :
    (p : Alert → Bool) (rows : List Alert) {a : Alert}
    → find p rows ≡ some a
    → is_some (find (by_id a.id) rows) ≡ true
unfolding find
find-by_id p [] h = cc
find-by_id p (x ∷ rows) {a} h = ground (arith, find-by_id p rows {a = a}, ==_self a.id)

fire_returns :
    (rowid now : ℕ) (k : Key) (severity : Severity) (detail : Fields) (rows : List Alert)
    → is_some (fire rowid now k severity detail rows).1 ≡ true
unfolding fire get_by_id
fire_returns rowid now k severity detail rows = elim (Option-cases (find (active_with k) rows)) [
  | inl absent ↦
      rw (absent, fire) (is_some-find-append (by_id rowid) rows _ (ground (arith, ==_self rowid)))
  | inr (a, there) ↦
      rw (there, fire)
        (is_some-find-update (by_id a.id) (by_id a.id) _ rows (λ r. refl)
          ∙ find-by_id (active_with k) rows there)
]

module _ (o : Outside) (s : Subject) where
  find-notify_new :
      (j : Key) (now : ℕ) (a : Alert) (alerts : List Alert)
      → is_some (find (active_with j) (notify_new o s now a alerts))
        ≡ is_some (find (active_with j) alerts)
  unfolding notify_new notify mark_notified
  find-notify_new j now a alerts = elim (Bool-cases (is_some a.notified_at)) [
    | inl done ↦ rw done refl
    | inr new ↦
        rw new (is_some-find-update (active_with j) (by_id a.id) (notified now) alerts (λ r. refl))
  ]

  notify_new-IsUnique :
      (now : ℕ) (a : Alert) (alerts : List Alert)
      → IsUnique alerts
      → IsUnique (notify_new o s now a alerts)
  unfolding notify_new notify
  notify_new-IsUnique now a alerts u = elim (Bool-cases (is_some a.notified_at)) [
    | inl done ↦ rw done u
    | inr new ↦ rw new (mark_notified-IsUnique now a.id alerts u)
  ]

-- Some finding is about the key.
abbrev pub reports : Key → ℕ → ℕ → List Finding → Bool
reports j client_id target_id [] = false
reports j client_id target_id (f ∷ fs) =
    same_key j (alert_key f.kind client_id target_id) || reports j client_id target_id fs

pub fire_findings_lem :
    (o : Outside) (s : Subject) (client_id target_id n : ℕ) (fs : List Finding) (j : Key)
    (alerts : List Alert)
    → let (after, whole) = fire_findings o s client_id target_id n fs alerts in
      (whole ≡ true)
      × (is_some (find (active_with j) after)
          ≡ (is_some (find (active_with j) alerts) || reports j client_id target_id fs))
      × (IsUnique alerts → IsUnique after)
unfolding fire_findings
fire_findings_lem o s client_id target_id n [] j alerts = (refl, ground arith, λ u. u)
fire_findings_lem o s client_id target_id n (f ∷ fs) j alerts =
    let k = alert_key f.kind client_id target_id in
    let once = fire (o.alert_id n) (o.clock (2 * n)) k f.severity f.detail alerts in
    let there = fire_returns (o.alert_id n) (o.clock (2 * n)) k f.severity f.detail alerts in
    let (a, found) = some_of once.1 there in
    let next = notify_new o s (o.clock (2 * n + 1)) a once.0 in
    let (whole, active, unique) = fire_findings_lem o s client_id target_id (n + 1) fs j next in
    let kept = find-notify_new o s j (o.clock (2 * n + 1)) a once.0 in
    let added = is_some-find-fire (o.alert_id n) (o.clock (2 * n)) k j f.severity f.detail alerts in
    rw (found, fire_findings)
      (
        whole,
        active
            ∙ ap (λ x. x || reports j client_id target_id fs) (kept ∙ added)
            ∙ ||_assoc (is_some (find (active_with j) alerts)) (same_key j k)
                (reports j client_id target_id fs),
        λ u. unique (
            notify_new-IsUnique o s (o.clock (2 * n + 1)) a once.0
              (fire-IsUnique (o.alert_id n) (o.clock (2 * n)) k f.severity f.detail alerts u)),
      )

-- Resolving a key leaves the alerts of every other key as they are.
resolve-apart :
    (now : ℕ) (k j : Key) (alerts : List Alert)
    → same_key j k ≡ false
    → find (active_with j) (resolve_active_by_key now k alerts).0 ≡ find (active_with j) alerts
unfolding resolve_active_by_key
resolve-apart now k j alerts apart =
    find-update_apart (active_with j) (active_with k) (resolved now) alerts (λ a h. ground arith)

-- Some type of the list makes the key of an alert that is resolved.
abbrev pub cleared : Key → ℕ → ℕ → List AlertType → Bool
cleared j client_id target_id [] = false
cleared j client_id target_id (k ∷ ks) =
    same_key j (alert_key k client_id target_id) || cleared j client_id target_id ks

pub resolve_types_lem :
    (o : Outside) (client_id target_id n : ℕ) (ks : List AlertType) (j : Key) (alerts : List Alert)
    → let after = resolve_types o client_id target_id n ks alerts in
      (is_some (find (active_with j) after)
        ≡ (not (cleared j client_id target_id ks) && is_some (find (active_with j) alerts)))
      × (IsUnique alerts → IsUnique after)
unfolding resolve_types
resolve_types_lem o client_id target_id n [] j alerts = (refl, λ u. u)
resolve_types_lem o client_id target_id n (t ∷ ts) j alerts =
    let k = alert_key t client_id target_id in
    let next = (resolve_active_by_key (o.clock n) k alerts).0 in
    let (rest, unique) = resolve_types_lem o client_id target_id (n + 1) ts j next in
    (
      rest ∙ elim (Bool-cases (same_key j k)) [
        | inl same ↦
            let gone : find (active_with j) next ≡ none =
              subst (λ x. find (active_with x) next ≡ none) (sym (same_key_sound j k same))
                (resolve_active_by_key_lem (o.clock n) k alerts).0 in
            rw (gone, same) (ground arith)
        | inr other ↦
            ap (λ x. not (cleared j client_id target_id ts) && is_some x)
              (resolve-apart (o.clock n) k j alerts other)
            ∙ rw other refl
      ],
      λ u. unique (resolve-IsUnique (o.clock n) 0 k alerts u).1,
    )
