-- ===== src/Snapshot.antt =====
-- The token ring with distributed snapshots of lab2/src/main.go and lab2/src/snapshot.go.
pub mod Types
pub mod Operations
pub mod Machine
pub mod Packing
pub mod Token
pub mod Completion
pub mod Recording
mod Tests
