-- ===== src/Batch.antt =====
-- The batch subsystem, qc/batch.
pub mod Models
pub mod Store
pub mod Board
pub mod Postgres
pub mod Ingest
pub mod Pipeline
mod Samples
pub mod Worker
pub mod Publisher
