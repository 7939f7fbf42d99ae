-- ===== src/Observability.antt =====
-- packages/wazeko/src/observability.
pub mod Logger
pub mod Reports
pub mod Monitoring
