-- ===== src/Central/Alerts/Store/Fire.antt =====
-- What firing, resolving and acknowledging an alert do to its row.
use snapshot_drive.Prelude.{
  ℕ, ◌+◌, String, ◌≡◌, refl, ap, ◌∙◌, ◌≢◌, none, some, List, [], ◌∷◌, ◌++◌, arith, if◌then◌else◌,
  length, str_eq, ==_self, length-append, Bool, true, is_some, ◌||◌, ◌&&◌, Option-cases, ◌==◌, inl,
  inr, Bool-cases,
}
use snapshot_drive.Prelude.Json
use snapshot_drive.Central.Alerts.Store.{
  Severity, fire, resolve_active_by_key, acknowledge, Key, get_by_id, Alert, by_id, refreshed,
  active_with, acknowledged, new_alert, resolved, same_type, same_target,
}
use snapshot_drive.Prelude.Json.{Fields, str}
use snapshot_drive.Prelude.Table.Keys.{HasKeys, find-with_key}
use snapshot_drive.Prelude.Table.{
  find, count, find-update, length-update, find-append_none, update, find_sound, find-update_ne,
  find-update_cleared, find-append_some, is_some-find-update,
}

by_id-refreshed :
    (i now : ℕ) (severity : Severity) (detail : Fields) (a : Alert)
    → by_id i (refreshed now severity detail a) ≡ by_id i a
by_id-refreshed i now severity detail a = refl

-- Firing over an active alert returns that alert: its id and its first time stay, the last time,
-- the severity and the merged detail are new, no row is added, and no other row changes.
pub fire_again :
    (rowid now : ℕ) (k : Key) (severity : Severity) (detail : Fields) (rows : List Alert)
    {a : Alert}
    → HasKeys (λ (r : Alert). r.id) rows
    → find (active_with k) rows ≡ some a
    → ((fire rowid now k severity detail rows).1
        ≡ some (refreshed now severity (Json.merge a.detail detail) a))
      × (length (fire rowid now k severity detail rows).0 ≡ length rows)
      × ((j : ℕ)
          → j ≢ a.id
          → get_by_id j (fire rowid now k severity detail rows).0 ≡ get_by_id j rows)
unfolding fire
fire_again rowid now k severity detail rows {a} keys there =
    let merged = Json.merge a.detail detail in
    let own : find (by_id a.id) rows ≡ some a =
      find-with_key (λ (r : Alert). r.id) (active_with k) rows keys there in
    (
      rw (there, fire)
          (find-update (by_id a.id) (by_id a.id) (refreshed now severity merged) rows
              (by_id-refreshed a.id now severity merged)
            ∙ rw own (ground arith)),
      rw (there, fire) (length-update (by_id a.id) _ rows),
      λ j other.
          rw (there, fire)
            (find-update_ne (by_id j) (by_id a.id) _ rows (by_id-refreshed j now severity merged)
              (λ r h. ground arith)),
    )

-- Firing with no active alert adds one new active row, at its end, and returns it.
pub fire_new :
    (rowid now : ℕ) (k : Key) (severity : Severity) (detail : Fields) (rows : List Alert)
    → find (by_id rowid) rows ≡ none
    → find (active_with k) rows ≡ none
    → fire rowid now k severity detail rows ≡ (
      rows ++ new_alert rowid now k severity detail ∷ [],
      some (new_alert rowid now k severity detail),
    )
unfolding fire
fire_new rowid now k severity detail rows unused absent =
    rw (absent, fire)
      (ap (λ found. (rows ++ new_alert rowid now k severity detail ∷ [], found))
        (find-append_none (by_id rowid) rows (new_alert rowid now k severity detail) unused
          ∙ rw ==_self))

-- Resolving by key leaves no active alert of the key and counts those that it resolved; the next
-- firing of the key then starts a new alert.
pub resolve_active_by_key_lem :
    (now : ℕ) (k : Key) (rows : List Alert)
    → (find (active_with k) (resolve_active_by_key now k rows).0 ≡ none)
      × ((resolve_active_by_key now k rows).1 ≡ count (active_with k) rows)
      × ((rowid later : ℕ) (severity : Severity) (detail : Fields)
          → length (fire rowid later k severity detail (resolve_active_by_key now k rows).0).0
            ≡ length rows + 1)
unfolding resolve_active_by_key
resolve_active_by_key_lem now k rows =
    let cleared : find (active_with k) (update (active_with k) (resolved now) rows) ≡ none =
      find-update_cleared (active_with k) (resolved now) rows (λ a. ground arith) in
    (
      cleared,
      refl,
      λ rowid later severity detail.
          unfold fire in
          rw (cleared, fire)
            (omega (
              arith,
              length-append (update (active_with k) (resolved now) rows)
                  (new_alert rowid later k severity detail ∷ []),
              length-update (active_with k) (resolved now) rows,
            )),
    )

-- An acknowledged alert is resolved, names who acknowledged it, and keeps its other details.
pub acknowledge_lem :
    (now i : ℕ) (actor : String) (rows : List Alert) {a : Alert}
    → get_by_id i rows ≡ some a
    → (b : Alert) × (get_by_id i (acknowledge now i actor rows) ≡ some b)
      × (b.resolved_at ≡ some now)
      × ((key : String)
          → Json.get_field key b.detail ≡ (
              if str_eq "acknowledged_by" key
              then some (str actor)
              else Json.get_field key a.detail))
unfolding acknowledge get_by_id
acknowledge_lem now i actor rows {a} there =
    let detail = Json.set_field "acknowledged_by" (str actor) a.detail in
    (
      acknowledged now detail a,
      rw (there, acknowledge)
          (find-update (by_id i) (by_id i) (acknowledged now detail) rows (λ r. refl)
            ∙ rw there (rw (find_sound (by_id i) rows there))),
      refl,
      λ key. Json.get_field-set_field "acknowledged_by" key (str actor) a.detail,
    )

abbrev pub same_key : Key → Key → Bool
same_key j k =
    same_type k.kind j.kind && (k.client_id == j.client_id && same_target k.target_id j.target_id)

pub same_key_sound : (j k : Key) → same_key j k ≡ true → j ≡ k
same_key_sound j k h = ground arith

-- After a firing an alert is active for its key, and for another key exactly if it was before.
pub is_some-find-fire :
    (rowid now : ℕ) (k j : Key) (severity : Severity) (detail : Fields) (rows : List Alert)
    → is_some (find (active_with j) (fire rowid now k severity detail rows).0)
      ≡ (is_some (find (active_with j) rows) || same_key j k)
unfolding fire
is_some-find-fire rowid now k j severity detail rows =
    elim (Option-cases (find (active_with k) rows)) [
      | inl absent ↦
          rw (absent, fire)
            (elim (Option-cases (find (active_with j) rows)) [
              | inl none_too ↦
                  rw (find-append_none (active_with j) rows _ none_too, none_too) (ground arith)
              | inr (b, other) ↦ rw (find-append_some (active_with j) rows _ other, other)
            ])
      | inr (a, there) ↦
          rw (there, fire)
            (is_some-find-update (active_with j) (by_id a.id) _ rows (λ r. refl)
              ∙ elim (Bool-cases (same_key j k)) [
                | inl same ↦ rw (same, same_key_sound j k same, there)
                | inr different ↦ rw different (ground arith)
              ])
    ]
