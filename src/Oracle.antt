-- ===== src/Oracle.antt =====
-- The oracle node of project/oracle/pkg/node over the consensus engine, the transport and the scorer,
-- with the network manager of project/oracle/pkg/consensus/network.go and the language model client.
pub mod Llm
pub mod Types
pub mod Manager
pub mod Results
pub mod Requests
pub mod Machine
pub mod Invariant
pub mod Upkeep
pub mod Running
pub mod Prompts
pub mod Callbacks
pub mod Messages
pub mod Repeats
pub mod Recovery
pub mod Restarts
pub mod Life
pub mod Server
pub mod Verdicts
pub mod Counting
mod Tests
mod ServerTests
