-- ===== src/Pbft.antt =====
-- The PBFT engine of project/oracle/pkg/consensus (pbft.go, types.go): its data, its handlers,
-- the schedule of events that drives it, and its theorems.
pub mod Types
pub mod Maintenance
pub mod Handlers
pub mod Validate
pub mod Engine
pub mod Votes
pub mod Invariant
pub mod Commits
pub mod Quorum
pub mod Execution
pub mod Marks
pub mod Once
pub mod Validation
pub mod Progress
pub mod Leadership
pub mod Checkpoints
pub mod System
mod Tests
pub mod Outsiders
