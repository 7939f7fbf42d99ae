-- ===== src/Core.antt =====
-- packages/wazeko-core/src.
pub mod Errors
pub mod Bytes
pub mod Rows
pub mod Crypto
pub mod Noise
pub mod Signal
pub mod Media
pub mod Plain
mod Examples
pub mod Session
