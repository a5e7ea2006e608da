-- ===== src/Central.antt =====
-- The modules under backend/central/.
pub mod Rows
pub mod Database
pub mod Report
pub mod Clients
pub mod Reaction
pub mod Models
pub mod Queue
pub mod Sender
pub mod Alerts
pub mod Tokens
pub mod Permissions
pub mod Schema
pub mod Api
pub mod Tests
