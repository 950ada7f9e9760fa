-- ===== src/Services.antt =====
-- src/file_monitor/services/
pub mod Registry
pub mod Planner
pub mod Watcher
pub mod Dispatcher
