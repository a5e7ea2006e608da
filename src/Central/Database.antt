-- ===== src/Central/Database.antt =====
-- The tables of the central server that backend/central/models.py reads and writes.
use snapshot_drive.Prelude.{List}
use snapshot_drive.Central.Rows.{Client, Target, Token, Event}
use snapshot_drive.Central.Alerts.Store.{Alert}

pub record Database : Type 0 where
  pub clients : List Client
  pub targets : List Target
  pub tokens : List Token
  pub events : List Event
  pub alerts : List Alert
