-- ===== src/Adapters.antt =====
-- src/file_monitor/adapters/, and the packages that it calls.
pub mod Blake3
pub mod Blake3Hasher
pub mod INotifyEvents
