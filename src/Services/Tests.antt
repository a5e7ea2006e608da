-- ===== src/Services/Tests.antt =====
-- The theorems about the services at concrete inputs.
use snapshot_drive.Prelude.Chars.Scan.{every}
use snapshot_drive.Prelude.{
  List, map, ℕ, ◌≡◌, ◌≢◌, ◌⊎◌, sym, ok_injective, refl, true, false, [], ◌∷◌, none, some, inl, ok,
  err, if◌then◌else◌, All,
}
use snapshot_drive.Prelude.Chars.{Chars, chars, same, split_lines, lower, or_else, strip}
use snapshot_drive.Prelude.Chars.Integers.{pos}
use snapshot_drive.Services.ArchiveConfig.Changed.{IsPasswordSaved, set_password_lem}
use snapshot_drive.Services.ArchiveConfig.Saved.{IsEnding, IsSaved, write_back_lem}
use snapshot_drive.Services.ArchiveConfig.Taxonomy.{IsTaxonomy, set_taxonomy_lem}
use snapshot_drive.Services.ArchiveConfig.Values.{
  value_error, is_target, validate_targets, split_words, os_error, validate_password, words, whole,
  null,
}
use snapshot_drive.Services.ArchiveConfig.Lines.{read_conf}
use snapshot_drive.Services.ArchiveConfig
use snapshot_drive.Services.ArchiveConfig.{
  get_config, store_password, store_taxonomy, clear_password, Updates, Form, Memory, write_back,
  set_password, set_taxonomy, new_text,
}
use snapshot_drive.Services.ConfFile.{unreadable, lookup, missing, text}
use snapshot_drive.Services.DbTargets.{parse_targets}
use snapshot_drive.Services.DbTargets.Configured.{validate_targets-parse_targets, shown_target}
use snapshot_drive.Services.Scheduler.Calendar.RoundTrip.{Asks, parse_oncalendar-build_oncalendar}
use snapshot_drive.Services.Scheduler.Calendar.{build_oncalendar, parse_oncalendar}
use snapshot_drive.Services.Scheduler.Dropin.RoundTrip.{read_dropin-dropin_body}
use snapshot_drive.Services.Scheduler.Dropin.{effective, read_dropin, dropin_body}
use snapshot_drive.Services.Scheduler.Retention.Accepted.{IsKept, set_retention_lem}
use snapshot_drive.Services.Scheduler.Retention.{retention_keys, set_retention}
use snapshot_drive.Services.Scheduler.Shown.{IsShown, set_schedule-Asks}
use snapshot_drive.Services.Scheduler.Written.{Ends, Saved, set_schedule_lem}
use snapshot_drive.Services.Scheduler.{
  read_effective, continue, not_found, file_not_found, finished, World, Host, Schedule,
  set_schedule, get_schedule,
}

parse_oncalendar-build_oncalendar_example :
    Asks
      (chars "weekly")
      (chars "7:05")
      (chars "Tue")
      1
      (parse_oncalendar (chars "Tue *-*-* 07:05:00"))
unfolding build_oncalendar same lower or_else snapshot_drive.Prelude.Chars.one_of
    snapshot_drive.Services.Scheduler.Calendar.parse_hhmm strip
    snapshot_drive.Prelude.Chars.Scan.literal
parse_oncalendar-build_oncalendar_example =
    parse_oncalendar-build_oncalendar (chars "Weekly") (chars "7:05") (chars "Tue") 1
      {expr = chars "Tue *-*-* 07:05:00"} refl

dropin_read_back :
    read_dropin (text (dropin_body (chars "hourly") (chars "5min")))
    ≡ (chars "hourly", chars "5min")
unfolding snapshot_drive.Prelude.Chars.Scan.every snapshot_drive.Prelude.Chars.lstrip
    snapshot_drive.Prelude.Chars.rstrip
dropin_read_back =
    read_dropin-dropin_body (chars "hourly") (chars "5min")
      (record { one_line = refl; trimmed = (refl, refl); some_text = cc })
      (record { one_line = refl; trimmed = (refl, refl); some_text = cc })

-- a systemd that counts its calls and shows nothing
abbrev machine : Host ℕ
machine = record {
  systemctl = λ w args. (w.manager, finished 0 [] []);
  analyze = λ expr. finished 0 [] [];
  writable = λ unit. true;
}

abbrev fresh : World ℕ
fresh = record { manager = 0; dropin = λ unit. missing }

set_schedule_lem_example :
    Ends fresh
      (Saved machine
        (chars "prune")
        (chars "daily")
        (chars "04:30")
        (chars "Mon")
        1
        []
        []
        true
        fresh)
      (set_schedule machine
        (chars "prune")
        (chars "daily")
        (chars "04:30")
        (chars "Mon")
        1
        []
        []
        true
        fresh)
set_schedule_lem_example =
    set_schedule_lem machine (chars "prune") (chars "daily") (chars "04:30") (chars "Mon") 1 [] []
      true fresh

abbrev pruned : Schedule
pruned = record {
  unit = chars "prune";
  enabled = true;
  preset = record { kind = chars "daily"; time = chars "04:30"; weekday = chars "Mon"; day = 1 };
  oncalendar = chars "*-*-* 04:30:00";
  next_run = none;
}

set_schedule-Asks_example :
    (pruned.unit ≡ chars "prune")
    × (pruned.preset ≡ parse_oncalendar pruned.oncalendar)
    × (u : World ℕ) × (set_schedule machine
          (chars "prune")
          (chars "daily")
          (chars "04:30")
          (chars "Mon")
          1
          []
          []
          true
          fresh
        ≡ get_schedule machine (chars "prune") u)
    × IsShown machine
        (chars "prune")
        (chars "daily")
        (chars "04:30")
        (chars "Mon")
        1
        []
        []
        true
        fresh
        u
        pruned
unfolding set_schedule snapshot_drive.Services.Scheduler.continue
    snapshot_drive.Prelude.Chars.one_of same build_oncalendar lower or_else
    snapshot_drive.Services.Scheduler.Calendar.parse_hhmm strip
    snapshot_drive.Prelude.Chars.Scan.literal snapshot_drive.Prelude.Chars.Scan.every
    snapshot_drive.Services.Scheduler.is_delay snapshot_drive.Prelude.Chars.Scan.span
    parse_oncalendar snapshot_drive.Services.Scheduler.Dropin.effective
    snapshot_drive.Services.Scheduler.Dropin.next_time
    snapshot_drive.Services.Scheduler.Calendar.Patterns.hourly_pattern
    snapshot_drive.Prelude.Chars.split_lines read_dropin
    snapshot_drive.Services.Scheduler.Dropin.dropin_lines dropin_body
    snapshot_drive.Services.Scheduler.Dropin.dropin_line snapshot_drive.Prelude.Chars.Scan.blanks
    snapshot_drive.Services.Scheduler.Calendar.Patterns.daily_time
set_schedule-Asks_example =
    set_schedule-Asks machine (chars "prune") (chars "daily") (chars "04:30") (chars "Mon") 1 [] []
      true fresh {s = pruned} refl

abbrev settings : Memory
settings = record {
  no_heartbeat_hours = 48;
  shrink_pct = 20;
  alerts_email = [];
  alerts_webhook = [];
  audit_remote_path = [];
  audit_enabled = false;
  central_url = [];
  central_token = [];
}

abbrev configured : ArchiveConfig.World
configured = record {
  conf = text (chars "# local\nARCHIVE_PASSWORD=old # x\nA = 1\n");
  memory = settings;
  writable = true;
}

abbrev one_update : Updates
one_update = (chars "A", chars "2") ∷ (chars "B", chars "x y") ∷ []

abbrev after_update : ArchiveConfig.World
after_update = record configured {
  conf = text (chars "# local\nARCHIVE_PASSWORD=old # x\nA=\"2\"\nB=\"x y\"\n");
}

write_back_lem_example :
    ((write_back one_update configured ≡ err os_error)
      × ((configured.writable ≡ false) ⊎ (configured.conf ≡ unreadable)))
    ⊎ ((w' : ArchiveConfig.World) × (write_back one_update configured ≡ ok w')
        × IsSaved one_update configured w')
unfolding snapshot_drive.Services.ConfFile.are_keys snapshot_drive.Prelude.Chars.Scan.every
    snapshot_drive.Services.ConfFile.lookup same write_back
    snapshot_drive.Services.ConfFile.trimmed_text snapshot_drive.Prelude.Chars.rstrip
    snapshot_drive.Prelude.Chars.join_lines snapshot_drive.Services.ConfFile.rewrite_lines
    snapshot_drive.Prelude.Chars.split_lines snapshot_drive.Services.ConfFile.assigns
    snapshot_drive.Prelude.Chars.Scan.literal snapshot_drive.Prelude.Chars.lstrip
    snapshot_drive.Services.ArchiveConfig.Lines.show_line
write_back_lem_example =
    write_back_lem one_update refl
      (
        (refl, record { plain = refl; one_line = refl }),
        ((refl, record { plain = refl; one_line = refl }), tt),
      )
      configured

write_back_updates : write_back one_update configured ≡ ok after_update
unfolding write_back snapshot_drive.Services.ConfFile.trimmed_text
    snapshot_drive.Prelude.Chars.rstrip snapshot_drive.Prelude.Chars.join_lines
    snapshot_drive.Services.ConfFile.rewrite_lines snapshot_drive.Prelude.Chars.split_lines
    snapshot_drive.Services.ConfFile.assigns snapshot_drive.Prelude.Chars.Scan.literal
    snapshot_drive.Prelude.Chars.lstrip snapshot_drive.Services.ArchiveConfig.Lines.show_line same
write_back_updates = refl

abbrev after_password : ArchiveConfig.World
after_password = record configured {
  conf = text (chars "# local\nARCHIVE_PASSWORD=\"a b c d $\"\nA = 1\n");
}

abbrev new_password : Chars
new_password = chars "a b c d $"

set_password_lem_example :
    IsEnding
      (get_config (chars "srv-1"))
      (IsPasswordSaved new_password new_password configured)
      configured
      (set_password (chars "srv-1") new_password new_password configured)
unfolding snapshot_drive.Prelude.Chars.Scan.every
set_password_lem_example =
    set_password_lem (chars "srv-1") new_password new_password configured refl

set_password_stores : store_password new_password new_password configured ≡ ok after_password
unfolding snapshot_drive.Prelude.Chars.Scan.every store_password
    snapshot_drive.Services.ArchiveConfig.Values.validate_password same
    snapshot_drive.Services.ConfFile.trimmed_text snapshot_drive.Prelude.Chars.rstrip
    snapshot_drive.Prelude.Chars.join_lines snapshot_drive.Services.ConfFile.rewrite_lines
    snapshot_drive.Prelude.Chars.split_lines snapshot_drive.Services.ConfFile.assigns
    snapshot_drive.Prelude.Chars.Scan.literal snapshot_drive.Prelude.Chars.lstrip
    snapshot_drive.Services.ArchiveConfig.Lines.show_line
set_password_stores = refl

abbrev asked : Form
asked =
    (chars "proyecto", words (chars "orus"))
    ∷ (chars "entorno", words (chars " cloud "))
    ∷ (chars "pais", words (chars "peru"))
    ∷ (chars "nombre", null)
    ∷ (chars "keep_months", whole (pos 24))
    ∷ []

abbrev after_taxonomy : ArchiveConfig.World
after_taxonomy = record configured {
  conf = text (
      chars
        "# local\nARCHIVE_PASSWORD=old # x\nA = 1\nBACKUP_PROYECTO=\"orus\"\nBACKUP_ENTORNO=\"cloud\"\nBACKUP_PAIS=\"peru\"\nBACKUP_NOMBRE=\"srv-1\"\nARCHIVE_KEEP_MONTHS=\"24\"\n");
}

set_taxonomy_lem_example :
    IsEnding
      (get_config (chars "srv-1"))
      (IsTaxonomy configured)
      configured
      (set_taxonomy (chars "srv-1") asked configured)
set_taxonomy_lem_example = set_taxonomy_lem (chars "srv-1") asked configured

set_taxonomy_stores : store_taxonomy (chars "srv-1") asked configured ≡ ok after_taxonomy
unfolding store_taxonomy snapshot_drive.Services.ArchiveConfig.Values.text_of
    snapshot_drive.Services.ConfFile.lookup same
    snapshot_drive.Services.ArchiveConfig.Values.validate_enum strip
    snapshot_drive.Prelude.Chars.one_of snapshot_drive.Services.ArchiveConfig.Values.validate_nombre
    or_else snapshot_drive.Prelude.Chars.Scan.every
    snapshot_drive.Services.ArchiveConfig.Values.number_field
    snapshot_drive.Services.ArchiveConfig.Values.int_value
    snapshot_drive.Services.ConfFile.trimmed_text snapshot_drive.Prelude.Chars.join_lines
    snapshot_drive.Services.ConfFile.rewrite_lines snapshot_drive.Prelude.Chars.split_lines
    snapshot_drive.Services.ConfFile.assigns snapshot_drive.Prelude.Chars.Scan.literal
    snapshot_drive.Services.ArchiveConfig.Lines.show_line snapshot_drive.Prelude.Chars.decimal
set_taxonomy_stores = refl

-- A file whose number of months is no number: the password is cleared, and then the call raises.
abbrev misconfigured : ArchiveConfig.World
misconfigured = record configured { conf = text (chars "ARCHIVE_KEEP_MONTHS=x\n") }

cleared_then_raised : clear_password (chars "srv-1") misconfigured ≡ (
  err value_error,
  record configured { conf = text (chars "ARCHIVE_KEEP_MONTHS=x\nARCHIVE_PASSWORD=\"\"\n") },
)
unfolding clear_password snapshot_drive.Prelude.Chars.Integers.int_of
    snapshot_drive.Services.ConfFile.trimmed_text strip snapshot_drive.Prelude.Chars.rstrip or_else
    snapshot_drive.Prelude.Chars.join_lines lookup snapshot_drive.Services.ConfFile.rewrite_lines
    read_conf split_lines snapshot_drive.Services.ConfFile.assigns
    snapshot_drive.Prelude.Chars.Scan.literal snapshot_drive.Services.ArchiveConfig.Lines.show_line
    snapshot_drive.Services.ArchiveConfig.Lines.read_line snapshot_drive.Prelude.Chars.Scan.span
    every snapshot_drive.Services.ArchiveConfig.Lines.value_of snapshot_drive.Services.ConfFile.put
    same
cleared_then_raised = refl

set_retention_lem_example :
    All
      (IsKept
        ((chars "keep_daily", whole (pos 7)) ∷ (chars "KEEP_YEARLY", words (chars " 2 ")) ∷ [])
        (text (chars "# c\n KEEP_DAILY = 3 # d\nKEEP_WEEKLY=4"))
        (text (chars "# c\nKEEP_DAILY=7\nKEEP_WEEKLY=4\nKEEP_YEARLY=2\n")))
      retention_keys
unfolding set_retention snapshot_drive.Services.ConfFile.lookup same lower
    snapshot_drive.Services.ArchiveConfig.Values.int_value
    snapshot_drive.Prelude.Chars.Integers.int_of strip snapshot_drive.Services.ConfFile.closed_text
    snapshot_drive.Prelude.Chars.join_lines snapshot_drive.Services.ConfFile.rewrite_lines
    snapshot_drive.Prelude.Chars.split_lines snapshot_drive.Services.ConfFile.assigns
    snapshot_drive.Prelude.Chars.Scan.literal
    snapshot_drive.Services.Scheduler.Retention.show_retention snapshot_drive.Prelude.Chars.decimal
set_retention_lem_example =
    set_retention_lem true
      ((chars "keep_daily", whole (pos 7)) ∷ (chars "KEEP_YEARLY", words (chars " 2 ")) ∷ [])
      (text (chars "# c\n KEEP_DAILY = 3 # d\nKEEP_WEEKLY=4"))
      {f' = text (chars "# c\nKEEP_DAILY=7\nKEEP_WEEKLY=4\nKEEP_YEARLY=2\n")} refl

-- Without systemctl a schedule cannot even be read: the exception is not caught.
abbrev no_systemd : Host ℕ
no_systemd = record {
  systemctl = λ w args. (w.manager, not_found);
  analyze = λ expr. not_found;
  writable = λ unit. true;
}

get_schedule_no_systemctl : (get_schedule no_systemd (chars "prune") fresh).0 ≡ err file_not_found
unfolding get_schedule continue snapshot_drive.Prelude.Chars.one_of same
get_schedule_no_systemctl = refl

-- A password with a vertical tab is accepted, and is not what the file then gives.
abbrev tabbed : Chars
tabbed = b'a' ∷ b'b' ∷ b'c' ∷ 11 ∷ chars "defgh"

tabbed_accepted : validate_password tabbed tabbed ≡ ok tabbed
unfolding validate_password same snapshot_drive.Prelude.Chars.Scan.every
tabbed_accepted = refl

tabbed_cut :
    lookup
      (chars "ARCHIVE_PASSWORD")
      (read_conf (text (new_text ((chars "ARCHIVE_PASSWORD", tabbed) ∷ []) [])))
    ≡ some (chars "\"abc")
unfolding lookup read_conf split_lines new_text snapshot_drive.Services.ConfFile.trimmed_text
    snapshot_drive.Prelude.Chars.rstrip snapshot_drive.Prelude.Chars.join_lines
    snapshot_drive.Services.ConfFile.rewrite_lines
    snapshot_drive.Services.ArchiveConfig.Lines.show_line
    snapshot_drive.Services.ArchiveConfig.Lines.read_line snapshot_drive.Prelude.Chars.Scan.span
    strip snapshot_drive.Prelude.Chars.Scan.every
    snapshot_drive.Services.ArchiveConfig.Lines.value_of snapshot_drive.Services.ConfFile.put same
tabbed_cut = refl

abbrev typed_targets : Chars
typed_targets = chars " mysql:shop  mongo:log.1 "

validate_targets-parse_targets_example :
    (ts : List (Chars × Chars)) × (parse_targets (chars "mysql:shop mongo:log.1") ≡ ok ts)
    × (map shown_target ts ≡ split_words (strip typed_targets))
unfolding validate_targets is_target every split_words strip
    snapshot_drive.Prelude.Chars.Scan.literal same snapshot_drive.Prelude.Chars.one_of
    snapshot_drive.Services.ArchiveConfig.Values.join_words
validate_targets-parse_targets_example = validate_targets-parse_targets typed_targets refl
