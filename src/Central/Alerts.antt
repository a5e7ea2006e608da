-- ===== src/Central/Alerts.antt =====
-- The modules under backend/central/alerts/.
pub mod Store
pub mod Rules
pub mod Sweep
pub mod Dispatch
