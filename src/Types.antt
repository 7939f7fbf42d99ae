-- ===== src/Types.antt =====
-- packages/wazeko-types: the values that the other packages exchange.
pub mod Jid
pub mod Contact
pub mod Message
pub mod Group
pub mod Events
pub mod Examples
