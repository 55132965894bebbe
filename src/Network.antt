-- ===== src/Network.antt =====
-- The peer-to-peer transport of project/oracle/pkg/network: framing, connections, health and discovery.
pub mod Framing
pub mod Transport
pub mod Discovery
pub mod Connections
pub mod Closing
pub mod Aliasing
pub mod Sending
mod Tests
