-- ===== src/Dataset.antt =====
-- apps/api/src/workflow_api/dataset_approval.py: two reviewers approve a dataset. `Events` reads the
-- reviews of a dataset, `State` what they say, `Approval` is the operation.
pub mod Events
pub mod State
pub mod Approval
pub mod Reviewers
mod Tests
