-- ===== src/Logging.antt =====
-- The logger of project/oracle/pkg/logging/logger.go.
pub mod Logger
pub mod Filtering
