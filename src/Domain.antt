-- ===== src/Domain.antt =====
-- src/file_monitor/domain/
pub mod Models
pub mod Planning
