-- ===== src/Central/Alerts/Store/Active.antt =====
-- At most one alert is active for each key, and resolved alerts stay resolved.
use snapshot_drive.Prelude.{
  ℕ, ◌≤◌, ◌≡◌, true, List, arith, Bool, none, ◌++◌, ◌∷◌, [], Bool-cases, inl, inr, String,
  Option-cases, refl,
}
use snapshot_drive.Central.Alerts.Store.{
  Key, Alert, active_with, Severity, new_alert, refreshed, fire, resolve, acknowledge,
  mark_notified, no_heartbeat, resolve_active_by_key, by_id, resolved, get_by_id, notified,
}
use snapshot_drive.Prelude.Table.{count, find, update}
use snapshot_drive.Prelude.Table.Counting.{count-update-le, count-none, count-append_one}
use snapshot_drive.Prelude.Json.{Fields}

active_with_sound :
    (k : Key) (a : Alert)
    → active_with k a ≡ true
    → (a.kind ≡ k.kind) × (a.client_id ≡ k.client_id) × (a.target_id ≡ k.target_id)
active_with_sound k a h = ground arith

-- No key has two active alerts.
pub record IsUnique (rows : List Alert) : Type 0 where
  pub at_most_one : (k : Key) → count (active_with k) rows ≤ 1

active_with_same :
    (k j : Key) (rowid now : ℕ) (severity : Severity) (detail : Fields)
    → active_with j (new_alert rowid now k severity detail) ≡ true
    → j ≡ k
active_with_same k j rowid now severity detail h = ground arith

pub update-IsUnique :
    (p : Alert → Bool) (f : Alert → Alert) (rows : List Alert)
    → ((k : Key) (a : Alert) → active_with k (f a) ≡ true → active_with k a ≡ true)
    → IsUnique rows
    → IsUnique (update p f rows)
update-IsUnique p f rows keep u = record {
  at_most_one =
      λ k. omega (arith, count-update-le (active_with k) p f rows (keep k), u.at_most_one k);
}

append-IsUnique :
    (k : Key) (rowid now : ℕ) (severity : Severity) (detail : Fields) (rows : List Alert)
    → find (active_with k) rows ≡ none
    → IsUnique rows
    → IsUnique (rows ++ new_alert rowid now k severity detail ∷ [])
append-IsUnique k rowid now severity detail rows absent u = record {
  at_most_one = λ j. elim (Bool-cases (active_with j (new_alert rowid now k severity detail))) [
    | inl e ↦
        let same = active_with_same k j rowid now severity detail e in
        let none_yet : count (active_with j) rows ≡ 0 =
          count-none (active_with j) rows (rw same absent) in
        rw (count-append_one (active_with j) rows, e, none_yet) (omega arith)
    | inr e ↦ rw (count-append_one (active_with j) rows, e) (u.at_most_one j)
  ];
}

active_with-refreshed :
    (k : Key) (now : ℕ) (severity : Severity) (detail : Fields) (a : Alert)
    → active_with k (refreshed now severity detail a) ≡ active_with k a
active_with-refreshed k now severity detail a = refl

-- Firing an alert leaves at most one active alert for each key.
pub fire-IsUnique :
    (rowid now : ℕ) (k : Key) (severity : Severity) (detail : Fields) (rows : List Alert)
    → IsUnique rows
    → IsUnique (fire rowid now k severity detail rows).0
unfolding fire
fire-IsUnique rowid now k severity detail rows u = elim (Option-cases (find (active_with k) rows)) [
  | inl absent ↦ rw (absent, fire) (append-IsUnique k rowid now severity detail rows absent u)
  | inr (a, there) ↦ rw (there, fire) (update-IsUnique (by_id a.id) _ rows (λ j b p. p) u)
]

pub resolve-IsUnique :
    (now i : ℕ) (k : Key) (rows : List Alert)
    → IsUnique rows
    → IsUnique (resolve now i rows) × IsUnique (resolve_active_by_key now k rows).0
unfolding resolve resolve_active_by_key
resolve-IsUnique now i k rows u = (
  update-IsUnique _ (resolved now) rows (λ j b p. ground arith) u,
  update-IsUnique _ (resolved now) rows (λ j b p. ground arith) u,
)

pub acknowledge-IsUnique :
    (now i : ℕ) (actor : String) (rows : List Alert)
    → IsUnique rows
    → IsUnique (acknowledge now i actor rows)
unfolding acknowledge
acknowledge-IsUnique now i actor rows u = elim (Option-cases (get_by_id i rows)) [
  | inl absent ↦ rw (absent, acknowledge) u
  | inr (a, there) ↦
      rw (there, acknowledge) (update-IsUnique (by_id i) _ rows (λ j b p. ground arith) u)
]

pub mark_notified-IsUnique :
    (now i : ℕ) (rows : List Alert) → IsUnique rows → IsUnique (mark_notified now i rows)
unfolding mark_notified
mark_notified-IsUnique now i rows u = update-IsUnique (by_id i) (notified now) rows (λ j b p. p) u

-- An operation on the table of alerts.
pub data Operation : Type 0 where
  firing : ℕ → ℕ → Key → Severity → Fields → Operation
  resolving notifying : ℕ → ℕ → Operation
  resolving_key : ℕ → Key → Operation
  acknowledging : ℕ → ℕ → String → Operation

unfoldable pub apply : Operation → List Alert → List Alert
apply (firing rowid now k severity detail) rows = (fire rowid now k severity detail rows).0
apply (resolving now i) rows = resolve now i rows
apply (notifying now i) rows = mark_notified now i rows
apply (resolving_key now k) rows = (resolve_active_by_key now k rows).0
apply (acknowledging now i actor) rows = acknowledge now i actor rows

unfoldable pub run : List Operation → List Alert → List Alert
unfolding apply
run [] rows = rows
run (o ∷ os) rows = run os (apply o rows)

apply-IsUnique : (o : Operation) (rows : List Alert) → IsUnique rows → IsUnique (apply o rows)
unfolding apply
apply-IsUnique (firing rowid now k severity detail) rows u =
    fire-IsUnique rowid now k severity detail rows u
apply-IsUnique (resolving now i) rows u =
    (resolve-IsUnique now i (record { kind = no_heartbeat; client_id = 0; target_id = none }) rows
      u).0
apply-IsUnique (notifying now i) rows u = mark_notified-IsUnique now i rows u
apply-IsUnique (resolving_key now k) rows u = (resolve-IsUnique now 0 k rows u).1
apply-IsUnique (acknowledging now i actor) rows u = acknowledge-IsUnique now i actor rows u

run_from-IsUnique :
    (os : List Operation) (rows : List Alert) → IsUnique rows → IsUnique (run os rows)
unfolding run
run_from-IsUnique [] rows u = u
run_from-IsUnique (o ∷ os) rows u = run_from-IsUnique os (apply o rows) (apply-IsUnique o rows u)

-- From the empty table, whatever operations are made and in whatever order, each client, target
-- and type has at most one active alert.
pub run-IsUnique : (os : List Operation) → IsUnique (run os [])
unfolding count
run-IsUnique os = run_from-IsUnique os [] (record { at_most_one = λ k. omega arith })
