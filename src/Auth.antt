-- ===== src/Auth.antt =====
-- packages/wazeko-auth/src.
pub mod Store
pub mod Disk
pub mod FileStore
pub mod AtomicFile
pub mod KeyValue
pub mod Backup
mod Examples
pub mod Pairing
