-- ===== src/Membership.antt =====
-- The group membership service of lab3/src/main.go: views, joining and removal in two phases,
-- failure detection, and the election of a new leader.
pub mod Types
pub mod Views
pub mod Election
pub mod Machine
pub mod Growth
pub mod Joining
pub mod Leaders
pub mod Heartbeats
mod Tests
