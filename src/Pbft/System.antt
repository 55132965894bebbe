-- ===== src/Pbft/System.antt =====
-- A group of engines of project/oracle/pkg/consensus that share a network, and what it promises.
pub mod Ledger
pub mod Network
pub mod Schedule
pub mod Flow
pub mod Implements
pub mod Refinement
pub mod Agreement
mod Tests
