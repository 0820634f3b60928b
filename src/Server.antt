-- ===== src/Server.antt =====
-- src/server: how a connection is served.
pub mod Accept
pub mod Connection
pub mod Listener
pub mod Pool
pub mod Run
pub mod Tasks
pub mod Start
