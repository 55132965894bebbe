-- ===== src/Launch.antt =====
-- The programs that wire oracle nodes: project/scripts/run_node.go, one node per process, and main of
-- project/oracle/cmd/server/main.go, all nodes in one process.
pub mod RunNode
pub mod Waiting
pub mod Silence
pub mod Handler
pub mod Group
pub mod Ready
mod Tests
mod GroupTests
