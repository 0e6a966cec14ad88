-- ===== src/Batch/Pipeline.antt =====
-- qc/batch/retry_policy.py, qc/batch/checkpoints.py and qc/batch/pipeline.py: one file through its
-- stages, with retries and checkpoints.
pub mod Retry
pub mod Checkpoint
pub mod Execute
pub mod Attempts
pub mod Stages
pub mod Resume
pub mod Analysis
pub mod Process
pub mod Processed
mod Samples
mod FileRuns
