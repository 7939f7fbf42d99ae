-- ===== src/Plugins.antt =====
-- packages/wazeko/src/plugins: commands and their middlewares.
pub mod Middleware
pub mod Examples
pub mod CommandRegistry
