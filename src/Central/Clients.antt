-- ===== src/Central/Clients.antt =====
-- backend/central/models.py: the clients.
pub mod Deletion
use snapshot_drive.Prelude.{
  ℕ, String, Bool, false, ◌&&◌, ◌||◌, Option, none, some, List, [], ◌∷◌, ◌++◌, ◌==◌, if◌then◌else◌,
  str_eq, is_some, Result, ok, err,
}
use snapshot_drive.Prelude.Table.{find, update, delete}
use snapshot_drive.Central.Rows.{Client, Event}
use snapshot_drive.Central.Database.{Database}
use snapshot_drive.Central.Alerts.Store.{Alert}

abbrev pub client_with : ℕ → Client → Bool
client_with i c = c.id == i

unfoldable pub get_client : ℕ → List Client → Option Client
get_client client_id clients = find (client_with client_id) clients

pub data ClientError : Type 0 where
  integrity_error : ClientError

abbrev pub has_proyecto : String → Client → Bool
has_proyecto proyecto c = str_eq c.proyecto proyecto

-- The INSERT under UNIQUE(proyecto).
unfoldable pub create_client :
    ℕ
    → ℕ
    → String
    → Option String
    → Option String
    → Option ℕ
    → Option String
    → List Client
    → Result ClientError (List Client × ℕ)
create_client rowid now proyecto organizacion contacto retencion_meses notas clients =
    if is_some (find (has_proyecto proyecto) clients)
    then err integrity_error
    else ok (
      clients
          ++ record {
            id = rowid;
            proyecto = proyecto;
            organizacion = organizacion;
            contacto = contacto;
            retencion_meses = retencion_meses;
            notas = notas;
            created_at = now;
            updated_at = now;
          }
            ∷ [],
      rowid,
    )

-- A row of central_events that refers to the client, to one of its tokens or to one of its
-- targets: its references have no ON DELETE action, so they forbid the deletion.
abbrev pub refers_to : ℕ → Database → Event → Bool
refers_to client_id db ev =
    ev.client_id == client_id
    || (is_some (find (λ t. t.id == ev.token_id && t.client_id == client_id) db.tokens)
        || is_some (find (λ t. t.id == ev.target_id && t.client_id == client_id) db.targets))

-- The alert is one of the client or of one of its targets.
abbrev pub goes_with : ℕ → Database → Alert → Bool
goes_with client_id db a = a.client_id == client_id || elim a.target_id [
  | none ↦ false
  | some i ↦ is_some (find (λ t. t.id == i && t.client_id == client_id) db.targets)
]

-- The tables after the cascade to the targets, the tokens and the alerts.
abbrev pub without_client : ℕ → Database → Database
without_client client_id db = record db {
  clients = delete (client_with client_id) db.clients;
  targets = delete (λ t. t.client_id == client_id) db.targets;
  tokens = delete (λ t. t.client_id == client_id) db.tokens;
  alerts = delete (goes_with client_id db) db.alerts;
}

-- The DELETE, foreign keys being on.
unfoldable pub delete_client : ℕ → Database → Result ClientError Database
delete_client client_id db =
    if is_some (find (client_with client_id) db.clients)
      && is_some (find (refers_to client_id db) db.events)
    then err integrity_error
    else ok (without_client client_id db)

-- The columns that the caller sets, each with its value; the callers pass these four only.
pub record Changes : Type 0 where
  pub organizacion : Option (Option String)
  pub contacto : Option (Option String)
  pub retencion_meses : Option (Option ℕ)
  pub notas : Option (Option String)

abbrev pub or_kept {ℓ} : {A : Type ℓ} → Option A → A → A
or_kept (some a) old = a
or_kept none old = old

abbrev pub changed : ℕ → Changes → Client → Client
changed now ch c = record c {
  organizacion = or_kept ch.organizacion c.organizacion;
  contacto = or_kept ch.contacto c.contacto;
  retencion_meses = or_kept ch.retencion_meses c.retencion_meses;
  notas = or_kept ch.notas c.notas;
  updated_at = now;
}

unfoldable pub update_client : ℕ → ℕ → Changes → List Client → List Client
update_client now client_id ch clients =
    if is_some ch.organizacion
      || (is_some ch.contacto || (is_some ch.retencion_meses || is_some ch.notas))
    then update (client_with client_id) (changed now ch) clients
    else clients
