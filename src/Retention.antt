-- ===== src/Retention.antt =====
-- apps/api/src/workflow_api/retention_store.py: the retention ledger. `Rows` is its tables and
-- checks, `Copies` the copies of a registration, `Ledger` the
-- registration and the legal hold, `Deletion` the deletion of copies, `Listing` its reads.
pub mod Rows
pub mod Copies
pub mod Ledger
pub mod Deletion
pub mod Listing
pub mod Transitions
pub mod Steps
pub mod Calls
pub mod Lookup
pub mod Evidence
pub mod Completion
pub mod Hold
mod Tests
