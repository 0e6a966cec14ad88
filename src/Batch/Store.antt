-- ===== src/Batch/Store.antt =====
-- qc/batch/store.py, `BatchStore`: the tables, the operations, and what is proved of them.
pub mod Tables
pub mod Files
pub mod Stages
pub mod Exports
pub mod Commands
pub mod Rules
pub mod Transitions
pub mod Untouched
pub mod Terminal
pub mod Validity
pub mod Invariant
pub mod Claims
pub mod Exclusive
pub mod Checkpoints
pub mod Completion
pub mod Counts
pub mod Restart
pub mod Refined
