-- ===== src/Ncp.antt =====
-- nps-ncp/src: the native-mode handshake, the session's encoding policy and failover.
pub mod Preamble
pub mod Version
pub mod Handshake
pub mod Encoding
pub mod Failover
mod Examples
