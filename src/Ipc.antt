-- ===== src/Ipc.antt =====
-- src/file_monitor/ipc/
pub mod Messages
pub mod Codec
pub mod Handshake
pub mod Uds
