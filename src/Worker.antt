-- ===== src/Worker.antt =====
-- The worker of apps/worker/src/workflow_worker. `Pipeline` makes a timeline of a session's events,
-- `Segments` infers operation segments from it and validates what is published.
pub mod Pipeline
pub mod Segments
pub mod Completion
