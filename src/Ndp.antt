-- ===== src/Ndp.antt =====
-- nps-ndp: the discovery protocol's registry of announced nodes.
pub mod Registry
pub mod Profile
mod Examples
