-- ===== src/Media.antt =====
-- packages/wazeko/src/media.
pub mod Stream
pub mod Cleanup
