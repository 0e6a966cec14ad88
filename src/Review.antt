-- ===== src/Review.antt =====
-- Human review: qc/review_models.py, qc/review_service.py and qc/review_store.py.
pub mod Models
pub mod Tables
pub mod Submit
pub mod Decisions
pub mod Valid
pub mod Steps
pub mod Final
pub mod Replay
pub mod Routing
pub mod Reasons
pub mod Routed
mod Samples
mod RoutedSamples
