-- ===== src/Similarity.antt =====
-- The clustering of responses in project/oracle/pkg/similarity/semantic.go.
pub mod Floats
pub mod Scorer
pub mod Covering
pub mod Partition
pub mod Selection
mod Tests
