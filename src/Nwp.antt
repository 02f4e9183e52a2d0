-- ===== src/Nwp.antt =====
-- nps-nwp: the web protocol's nodes. Here the Anchor's fence.
pub mod AnchorFence
mod Examples
