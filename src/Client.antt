-- ===== src/Client.antt =====
-- The client of the macOS host (crates/seter-cli/src/client.rs and client): its configuration, the
-- Lima Host, and the commands that it sends there.
pub mod Config
pub mod Host
pub mod Commands
pub mod Probe
pub mod Connections
pub mod Shutdown
pub mod Deployment
pub mod Configuring
