-- ===== src/Lib.antt =====
-- snapshot_drive: a model of the central server of snapshot-drive, of the client's queue that
-- reports to it, and of the accounts that sign in to both.
--
-- A client machine makes a payload for each operation, puts it into a local queue and sends it
-- to the central server, again and again on a ladder of waiting times. The server checks the
-- bearer token and the payload, records the event, updates the row of the target and reacts with
-- alerts. A sweep adds alerts about targets that fell silent. People sign in with a password and
-- a second factor; a session in a table carries them through the requests.
--
-- Prelude holds what all share: Boolean tests, exceptions as values (Result), tables as lists of
-- rows with SELECT, UPDATE and DELETE (Prelude/Table), ORDER BY (Prelude/Sort), texts
-- (Prelude/Text) and JSON values (Prelude/Json).
--
-- Each module under Central models the file of backend/central with its name: Queue (queue.py),
-- Sender (sender.py), Tokens (tokens.py), Permissions (permissions.py), Schema (schema.py), Api
-- (api.py), Alerts/Store, Alerts/Dispatch, Alerts/Rules and Alerts/Sweep (alerts/*.py). The file
-- models.py is four: Clients, Report (what is read of a payload), Reaction (the alerts of a
-- heartbeat) and Models (apply_heartbeat); Rows and Database hold the tables of
-- backend/models/db.py. Each module under Auth models the file of backend/auth with its name:
-- Lockout, Sessions, Users, Passwords, ResetTokens, Mfa, Audit, Middleware (with decorators.py);
-- the handlers of routes.py are Login, Account (logout, change and reset of a password),
-- Enrolment (of a second factor) and Admin (the management of a user); Rows and Db hold the
-- tables of migrations.py. A function keeps its name; its database argument is the list of rows
-- that it reads and returns. Child modules hold the proofs, Tests the concrete runs.
--
-- Services models backend/services: Scheduler (scheduler.py) with Calendar (the calendar
-- expressions of systemd), Dropin (the drop-in files and the answers of systemctl) and Retention;
-- ArchiveConfig (archive_config.py) with Lines (one line of the file), Values (the checks of the
-- forms), Links and Live (the setters and getters); DbTargets (db_targets.py). ConfFile is what
-- the first two do to the lines of a configuration file, over a record of operations and laws
-- (Format) that each of them fills. Texts that are taken apart there are lists of code points
-- (Prelude/Chars); a regular expression is written out piece by piece (Prelude/Chars/Scan).
--
-- Conventions. A timestamp is a number of microseconds, in the order of its ISO text; a call
-- takes its clock readings as arguments, in their order, and so the ids that SQLite gives and
-- the random texts. A row id is a number that the caller supplies; where freshness matters it is
-- a hypothesis. Each statement commits as in the code: what raises before the commit changes
-- nothing. Recursion is structural throughout, so no fuel is needed.
--
-- Parameters. The password and token hasher (argon2), the strength estimate (zxcvbn), the
-- one-time codes (pyotp), the encryption, uuid, the rounding of floats, the mail server, the
-- webhook, the HTTP client, systemctl and systemd-analyze are arguments; the theorems hold for any
-- of them but where a hypothesis says otherwise. Texts are taken as ASCII where the code lowers
-- or tests digits, and in the database parts where it strips; the blanks and the line breaks of
-- Prelude/Chars are those of Unicode. A configuration file that can be read is valid UTF-8.
--
-- Not modelled: the inventory of Drive (backend/central/inventory.py), the remaining handlers of
-- backend/auth/routes.py, the administration and the dashboard of the server, the archives of the
-- shell core (archive_ops.py, db_archive_ops.py, snapctl.py), generate_keypair of
-- archive_config.py, pages and command lines. Most of these are output, subprocesses or thin
-- handlers around the operations modelled here. Of the errors of foreign keys only those of a
-- DELETE are there: a row that a call inserts is taken to refer to rows that exist.
pub mod Services
pub mod Prelude
pub mod Central
pub mod Auth
