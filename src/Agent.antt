-- ===== src/Agent.antt =====
-- The bounded agent loop over a report: qc/agent_loop.py, with qc/context_builder.py.
pub mod Window
pub mod Executor
pub mod Loop
pub mod Trusted
pub mod Revised
mod Samples
