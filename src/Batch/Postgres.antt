-- ===== src/Batch/Postgres.antt =====
-- qc/batch/postgres_store.py, `PostgresBatchStore`: the batches of the running system, with the outbox.
pub mod Tables
pub mod Jobs
pub mod Outbox
pub mod Items
pub mod Finalize
pub mod Refines
pub mod Finals
pub mod Store
pub mod Closing
pub mod Creation
pub mod Idempotent
pub mod Stages
pub mod Checkpoints
pub mod Exports
pub mod Samples
pub mod StageRuns
