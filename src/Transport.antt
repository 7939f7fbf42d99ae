-- ===== src/Transport.antt =====
-- packages/wazeko-transport/src.
pub mod Reconnect
pub mod Examples
pub mod WebSocket
