-- ===== src/Services.antt =====
-- backend/services: the timers of systemd and the files of the configuration.
pub mod ConfFile
pub mod Scheduler
pub mod ArchiveConfig
pub mod DbTargets
pub mod Tests
