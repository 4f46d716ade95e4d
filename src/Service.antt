-- ===== src/Service.antt =====
-- apps/api/src/workflow_api/control_service.py: the authenticated boundary of the stores.
-- `Session` is its state and the way its methods run, `Authorize` the authorization with its audit
-- evidence, `Jobs`, `Retention` and `Reviews` its methods on jobs, retention targets, and on reviews
-- and audit events. The other modules are about several of them.
pub mod Session
pub mod Authorize
pub mod Jobs
pub mod Retention
pub mod Reviews
pub mod Reads
pub mod Isolation
pub mod Denial
pub mod Evidence
pub mod Unrecorded
mod Tests
