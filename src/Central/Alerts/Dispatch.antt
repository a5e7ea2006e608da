-- ===== src/Central/Alerts/Dispatch.antt =====
-- backend/central/alerts/dispatch.py: the notifications of an alert. The mail server and the
-- webhook are parameters: whether the mail was handed over, and the status that the POST returned.
use snapshot_drive.Prelude.{
  ℕ, String, ◌≡◌, refl, ◌∙◌, ◌≢◌, Bool, false, ◌&&◌, ◌||◌, Option, none, some, List, arith, ltb,
  leb, if◌then◌else◌, ==_self,
}
use snapshot_drive.Prelude.Text.{is_empty}
use snapshot_drive.Prelude.Json.{Json, null, obj, str, field, num, end}
use snapshot_drive.Central.Alerts.Store.{
  Alert, mark_notified, get_by_id, notified, by_id, AlertType, Severity, no_heartbeat, info,
  folder_missing, warning, backup_shrink, critical,
}
use snapshot_drive.Prelude.Table.{find-update, find-update_ne}

pub record Channels : Type 0 where
  pub smtp_host : String
  pub alerts_email : String
  pub alerts_webhook : String
  pub smtp_sends : Alert → Bool
  pub webhook_status : Json → Option ℕ

unfoldable pub send_email : Channels → Alert → Bool
send_email c a = if is_empty c.smtp_host || is_empty c.alerts_email then false else c.smtp_sends a

unfoldable pub post_webhook : Channels → Json → Bool
post_webhook c body = if is_empty c.alerts_webhook then false else elim (c.webhook_status body) [
  | none ↦ false
  | some status ↦ leb 200 status && ltb status 300
]

-- What the callers pass of the client and of the target.
pub record Subject : Type 0 where
  pub proyecto : Option String
  pub organizacion : Option String
  pub label : String
  pub category : String
  pub subkey : String

abbrev pub type_text : AlertType → String
type_text no_heartbeat = "no_heartbeat"
type_text folder_missing = "folder_missing"
type_text backup_shrink = "backup_shrink"

abbrev pub severity_text : Severity → String
severity_text info = "info"
severity_text warning = "warning"
severity_text critical = "critical"

abbrev text_or_null : Option String → Json
text_or_null none = null
text_or_null (some s) = str s

unfoldable pub webhook_body : String → Alert → Subject → Json
webhook_body event a s = obj (
    field "event" (str event) (
      field "alert"
        (obj (
          field "id" (num a.id) (
            field "type" (str (type_text a.kind)) (
              field "severity" (str (severity_text a.severity))
                (field "triggered_at" (num a.triggered_at) (field "detail" (obj a.detail) end))))))
        (field "client"
          (obj (
            field "proyecto" (text_or_null s.proyecto)
              (field "organizacion" (text_or_null s.organizacion) end)))
          (field "target"
            (obj (
              field "label" (str s.label)
                (field "category" (str s.category) (field "subkey" (str s.subkey) end))))
            end))))

pub record Sent : Type 0 where
  pub email : Bool
  pub webhook : Bool

unfoldable pub notify : Channels → String → Subject → ℕ → Alert → List Alert → List Alert × Sent
unfolding send_email post_webhook webhook_body
notify c event s now a alerts = (
  mark_notified now a.id alerts,
  record { email = send_email c a; webhook = post_webhook c (webhook_body event a s) },
)

-- Whatever the mail server and the webhook do, the alert is marked as notified, and every other
-- alert stays as it is: a failed notification is not tried again.
pub notify_lem :
    (c : Channels) (event : String) (s : Subject) (now i : ℕ) (a : Alert) (alerts : List Alert)
    → get_by_id a.id alerts ≡ some a
    → (get_by_id a.id (notify c event s now a alerts).0 ≡ some (notified now a))
      × (i ≢ a.id → get_by_id i (notify c event s now a alerts).0 ≡ get_by_id i alerts)
unfolding notify mark_notified get_by_id
notify_lem c event s now i a alerts there = (
  find-update (by_id a.id) (by_id a.id) (notified now) alerts (λ r. refl)
      ∙ rw there (ground (arith, ==_self a.id)),
  λ other.
      find-update_ne (by_id i) (by_id a.id) (notified now) alerts (λ r. refl) (λ r h. ground arith),
)
