-- ===== src/Pbft/Invariant.antt =====
-- The invariant of the engine and that every event keeps it.
pub mod Defs
pub mod Handlers
pub mod Run
