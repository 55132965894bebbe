-- ===== src/Paxos.antt =====
-- The Paxos peer of lab4/src/main.go: its roles, its two sides, and the theorems about them.
pub mod Types
pub mod Roles
pub mod Acceptor
pub mod Proposer
pub mod Peers
pub mod Frames
pub mod Promises
pub mod Values
pub mod Responses
pub mod Settling
pub mod Majority
mod Tests
