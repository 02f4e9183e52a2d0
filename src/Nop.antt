-- ===== src/Nop.antt =====
-- nps-nop: orchestration of task graphs.
pub mod Models
pub mod Examples
pub mod Dag
pub mod InputMapper
pub mod Aggregator
pub mod Condition
pub mod CallbackUrl
pub mod Store
pub mod Node
pub mod Orchestrator
