-- ===== src/Supervision.antt =====
-- src/file_monitor/supervision/
pub mod Supervisor
