-- ===== src/Quality.antt =====
-- Quality control of a call: the report, the rules, the evidence and the deterministic gate.
pub mod Models
pub mod Rules
pub mod Support
pub mod Score
pub mod Gate
pub mod Check
pub mod Evidence
pub mod Deduplicated
pub mod Penalties
pub mod Passing
pub mod Settled
pub mod Released
mod Samples
