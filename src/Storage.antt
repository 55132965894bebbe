-- ===== src/Storage.antt =====
-- Storage of execution records: project/oracle/pkg/storage/pinata.go.
pub mod Pinata
pub mod Retrieval
pub mod Results
mod Tests
