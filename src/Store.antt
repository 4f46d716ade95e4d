-- ===== src/Store.antt =====
-- apps/api/src/workflow_api/control_store.py: the SQLite control store. `Rows` and `ReviewRows` are
-- its tables, `Jobs` its jobs and leases, `Reviews` its reviews with their projection.
pub mod Rows
pub mod Jobs
pub mod ReviewRows
pub mod Candidates
pub mod Reviews
pub mod Audits
