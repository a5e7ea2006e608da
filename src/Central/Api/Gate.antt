-- ===== src/Central/Api/Gate.antt =====
-- What the heartbeat endpoint has checked when it accepts, and what it leaves when it does not.
use snapshot_drive.Prelude.{
  String, ◌≡◌, refl, inl, inr, Bool, true, false, Option, none, some, List, Bool-cases, str_eq,
  Result, ok, err, Result-cases, Option-cases, eq_iff, subst, ap, ◌∙◌, sym, not, ◌&&◌,
}
use snapshot_drive.Prelude.Json.{Json, Fields, null}
use snapshot_drive.Central.Rows.{Client, Token}
use snapshot_drive.Central.Database.{Database}
use snapshot_drive.Central.Tokens.{TokenInfo, verify}
use snapshot_drive.Central.Tokens
use snapshot_drive.Central.Schema
use snapshot_drive.Central.Schema.{check_size}
use snapshot_drive.Central.Schema.Heartbeat.{validate_heartbeat}
use snapshot_drive.Central.Report.{ApplyError}
use snapshot_drive.Central.Clients.{get_client}
use snapshot_drive.Central.Models.{apply_heartbeat, HeartbeatResult}
use snapshot_drive.Central.Api.{
  Request, World, Reply, accepted, raised, too_large, missing_bearer, invalid_token, not_json,
  bad_schema, client_gone, mismatch, status, bearer, applied, proyecto_of, event_id_of, for_client,
  with_client, validated, authenticated, verified, heartbeat,
}
use snapshot_drive.Central.Sender.{is_rejection}

unfoldable pub is_accepted : Reply → Bool
is_accepted (accepted event_id target_id) = true
is_accepted _ = false

unfoldable pub is_raised : Reply → Bool
is_raised raised = true
is_raised _ = false

-- Only the tokens may differ.
abbrev pub KeepsRows : Database → Database → Type 0
KeepsRows db db' =
    (db'.clients ≡ db.clients)
    × (db'.targets ≡ db.targets)
    × (db'.events ≡ db.events)
    × (db'.alerts ≡ db.alerts)

-- What an accepted reply shows, and what any other reply leaves.
abbrev Gated : (Database → Type 0) → Database → Database × Reply → Type 0
Gated P db r = (is_accepted r.1 ≡ true → P r.0) × (is_accepted r.1 ≡ false → KeepsRows db r.0)

module _ (w : World) (req : Request) where
  -- The report of the client that the token names, for its project, was applied.
  abbrev pub IsApplied : TokenInfo → Fields → Database → Database → Type 0
  IsApplied info payload db db' =
      (c : Client) × (get_client info.client_id db.clients ≡ some c)
      × (proyecto_of payload ≡ ok c.proyecto)
      × (res : HeartbeatResult) × (apply_heartbeat w.models w.target_row w.event_row w.later info.id
            info.client_id (some req.src_ip) payload db
          ≡ ok (db', res))

  applied-Gated :
      (m : Result ApplyError (Database × HeartbeatResult)) (event_id : String) (db : Database)
      → Gated (λ db'. (res : HeartbeatResult) × (m ≡ ok (db', res))) db (applied m event_id db)
  unfolding applied is_accepted
  applied-Gated (ok (db', res)) event_id db = (λ h. (res, refl), λ h. cc)
  applied-Gated (err e) event_id db = (λ h. cc, λ h. (refl, refl, refl, refl))

  for_client-Gated :
      (info : TokenInfo) (payload : Fields) (c : Client) (proyecto : String) (db : Database)
      → get_client info.client_id db.clients ≡ some c
      → proyecto_of payload ≡ ok proyecto
      → Gated (IsApplied info payload db) db (for_client w req info payload c proyecto db)
  unfolding for_client is_accepted
  for_client-Gated info payload c proyecto db there named =
      elim (Bool-cases (str_eq proyecto c.proyecto)) [
        | inr other ↦ rw (other, is_accepted) (λ h. cc, λ h. (refl, refl, refl, refl))
        | inl same ↦
            let m =
              apply_heartbeat w.models w.target_row w.event_row w.later info.id info.client_id
                (some req.src_ip) payload db in
            let (good, bad) = applied-Gated m (event_id_of payload) db in
            let own : proyecto ≡ c.proyecto = (eq_iff proyecto c.proyecto).0 same in
            rw same
              (λ h. let (res, stored) = good h in (c, there, named ∙ ap ok own, res, stored), bad)
      ]

  with_client_passes :
      (info : TokenInfo) (payload : Fields) (c : Client) (proyecto : String) (db : Database)
      → get_client info.client_id db.clients ≡ some c
      → proyecto_of payload ≡ ok proyecto
      → with_client w req info payload (get_client info.client_id db.clients) db
        ≡ for_client w req info payload c proyecto db
  unfolding with_client
  with_client_passes info payload c proyecto db there named = rw (there, with_client, named) refl

  with_client-Gated :
      (info : TokenInfo) (payload : Fields) (db : Database)
      → Gated
          (IsApplied info payload db)
          db
          (with_client w req info payload (get_client info.client_id db.clients) db)
  unfolding with_client is_accepted
  with_client-Gated info payload db = elim (Option-cases (get_client info.client_id db.clients)) [
    | inl gone ↦ rw (gone, with_client, is_accepted) (λ h. cc, λ h. (refl, refl, refl, refl))
    | inr (c, there) ↦ elim (Result-cases (proyecto_of payload)) [
      | inl (proyecto, named) ↦
          subst (Gated (IsApplied info payload db) db)
            (sym (with_client_passes info payload c proyecto db there named))
            (for_client-Gated info payload c proyecto db there named)
      | inr (e, unnamed) ↦
          rw (there, with_client, unnamed, is_accepted) (λ h. cc, λ h. (refl, refl, refl, refl))
    ]
  ]

  -- The body is a payload that the validation lets through, and its report was applied.
  abbrev pub IsAuthorised : TokenInfo → Database → Database → Type 0
  IsAuthorised info db db' =
      (body : Json) × (req.body ≡ some body)
      × (payload : Fields) × (validate_heartbeat w.schema body ≡ ok payload)
      × IsApplied info payload db db'

  validated-Gated :
      (info : TokenInfo) (m : Result Schema.Error Fields) (db : Database)
      → Gated
          (λ db'. (payload : Fields) × (m ≡ ok payload) × IsApplied info payload db db')
          db
          (validated w req info m db)
  unfolding validated is_accepted
  validated-Gated info (ok payload) db =
      let (good, bad) = with_client-Gated info payload db in (λ h. (payload, refl, good h), bad)
  validated-Gated info (err Schema.schema_error) db = (λ h. cc, λ h. (refl, refl, refl, refl))
  validated-Gated info (err Schema.key_error) db = (λ h. cc, λ h. (refl, refl, refl, refl))
  validated-Gated info (err Schema.type_error) db = (λ h. cc, λ h. (refl, refl, refl, refl))

  authenticated-Gated :
      (info : TokenInfo) (given : Option Json) (db : Database)
      → Gated
          (λ db'.
            (body : Json) × (given ≡ some body)
            × (payload : Fields) × (validate_heartbeat w.schema body ≡ ok payload)
            × IsApplied info payload db db')
          db
          (authenticated w req info given db)
  unfolding authenticated is_accepted
  authenticated-Gated info none db = (λ h. cc, λ h. (refl, refl, refl, refl))
  authenticated-Gated info (some null) db = (λ h. cc, λ h. (refl, refl, refl, refl))
  authenticated-Gated info (some body) db =
      let (good, bad) = validated-Gated info (validate_heartbeat w.schema body) db in
      (λ h. let (payload, valid, done) = good h in (body, refl, payload, valid, done), bad)

  verified-Gated :
      (m : Result Tokens.Error (List Token × Option TokenInfo)) (db : Database)
      → Gated
          (λ db'.
            (tokens : List Token) × (info : TokenInfo) × (m ≡ ok (tokens, some info))
            × IsAuthorised info (record db { tokens = tokens }) db')
          db
          (verified w req m db)
  unfolding verified is_accepted
  verified-Gated (err e) db = (λ h. cc, λ h. (refl, refl, refl, refl))
  verified-Gated (ok (tokens, none)) db = (λ h. cc, λ h. (refl, refl, refl, refl))
  verified-Gated (ok (tokens, some info)) db =
      let (good, bad) = authenticated-Gated info req.body (record db { tokens = tokens }) in
      (λ h. (tokens, info, refl, good h), bad)

-- What the endpoint has checked when it accepts: the bearer token is a live one, and the report in
-- the body was applied for the client of the token.
abbrev pub IsAccepted : World → Request → Database → Database → Type 0
IsAccepted w req db db' =
    (plaintext : String) × (bearer req.authorization ≡ some plaintext)
    × (tokens : List Token) × (info : TokenInfo) × (verify w.hasher w.now plaintext db.tokens
        ≡ ok (tokens, some info))
    × IsAuthorised w req info (record db { tokens = tokens }) db'

-- A heartbeat that is accepted carries a bearer token that the check of the tokens answers, a body
-- that the validation lets through, and the project of the token's client, and its report was
-- applied for that client. Any other reply leaves clients, targets, events and alerts as they were.
pub heartbeat_lem :
    (w : World) (req : Request) (db : Database)
    → (is_accepted (heartbeat w req db).1 ≡ true → IsAccepted w req db (heartbeat w req db).0)
      × (is_accepted (heartbeat w req db).1 ≡ false → KeepsRows db (heartbeat w req db).0)
unfolding heartbeat is_accepted
heartbeat_lem w req db = elim (Result-cases (check_size req.raw)) [
  | inr (e, large) ↦ rw (heartbeat, large, is_accepted) (λ h. cc, λ h. (refl, refl, refl, refl))
  | inl (_, small) ↦ elim (Option-cases (bearer req.authorization)) [
    | inl missing ↦
        rw (heartbeat, small, missing, is_accepted) (λ h. cc, λ h. (refl, refl, refl, refl))
    | inr (plaintext, given) ↦
        let (good, bad) = verified-Gated w req (verify w.hasher w.now plaintext db.tokens) db in
        rw (heartbeat, small, given)
          (
            λ h. let (tokens, info, e, rest) = good h in (plaintext, refl, tokens, info, e, rest),
            bad,
          )
  ]
]

-- The sender gives an event up on every reply of the endpoint but the acceptance and the failure
-- by an exception.
pub is_rejection-status :
    (r : Reply) → is_rejection (status r) ≡ (not (is_accepted r) && not (is_raised r))
unfolding is_rejection status is_accepted is_raised
is_rejection-status (accepted e i) = refl
is_rejection-status raised = refl
is_rejection-status too_large = refl
is_rejection-status missing_bearer = refl
is_rejection-status invalid_token = refl
is_rejection-status not_json = refl
is_rejection-status bad_schema = refl
is_rejection-status client_gone = refl
is_rejection-status mismatch = refl
