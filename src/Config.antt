-- ===== src/Config.antt =====
-- The configuration: project/config/config.go and project/oracle/pkg/config/config.go.
pub mod Global
pub mod Loading
mod Tests
