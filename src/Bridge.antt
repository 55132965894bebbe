-- ===== src/Bridge.antt =====
-- The programs between the oracle and the blockchain: the listener of project/scripts/main.go and the
-- caller of project/scripts/caller.go.
pub mod Types
pub mod Listener
pub mod Caller
pub mod Coverage
pub mod Waiting
pub mod Finding
pub mod Answers
mod Tests
