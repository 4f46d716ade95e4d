-- ===== src/Lib.antt =====
-- Workflow Helper: a verification library for the control plane (apps/api) and the worker (apps/worker).
--
-- The control plane keeps jobs, leases, completions, reviews and an append-only audit log in one
-- SQLite file, retention targets in another and safety switches in a third. Its service authorizes a
-- principal first, qualifies every identifier by the principal's tenant and workspace, and calls one
-- transaction of a store. The worker makes a timeline of the events of a captured session and infers
-- operation segments from it.
--
-- Which file models which part:
--   Scope       apps/api/src/workflow_api/control_scope.py: `segment`, `qualify`, `unqualify`
--   Auth        apps/api/src/workflow_api/control_auth.py: roles, actions, principals
--   Audit       apps/api/src/workflow_api/audit_schema.py and the audit part of control_store.py
--   Checks      the argument checks of control_store.py
--   Store       apps/api/src/workflow_api/control_store.py: `Rows` the tables with their
--               constraints, `Jobs` the operations register_job, acquire, heartbeat (here
--               `heartbeat_lease`) and complete, `ReviewRows` the rows and records of reviews,
--               `Candidates` the patterns of candidate targets, `Reviews` append_review_event,
--               `Audits` the readings of audit events
--               Under `Reviews`: `Keys` scope and idempotency keys, `Lifecycle` and `Chain` the
--               validation of a stored candidate chain, `Reading` the readings, and for
--               append_candidate_review_event `Request` its arguments, `Payload` the JSON that it
--               stores, `Writer` its transaction
--   Retention   apps/api/src/workflow_api/retention_store.py: `Rows` the tables, `Copies` the
--               canonical copies, and of the methods of RetentionLedger `Ledger` register_target
--               and set_legal_hold, `Deletion` stage_trash and attest_deleted, `Listing` those that
--               read
--   Safety      apps/api/src/workflow_api/safety_switches.py and safety_control.py
--   Service     apps/api/src/workflow_api/control_service.py: `Session` the state and the way a
--               method runs, `Authorize` authorization and evidence, `Jobs` and `Retention` the
--               methods on jobs and on retention targets, `Reviews` those on ordinary reviews and
--               the readings of reviews and audit events, `Reviews/Public` what they show,
--               `Reviews/Capability` and `Reviews/Candidate` authorize_candidate_review and
--               append_candidate_review
--   Dataset     apps/api/src/workflow_api/dataset_approval.py: `Events` the reading of all reviews
--               of a dataset, `State` what they say, `Approval` approve_dataset and
--               read_dataset_approval_state
--   Worker      `Pipeline` apps/worker/src/workflow_worker/pipeline.py and the events of models.py,
--               `Segments` processing_v2.py: inference and validation of operation segments,
--               `Completion` what is sent of a result
--   Base, Text, Json, Platform   what these share: results and transactions, tables as lists of
--               rows, Python's str as a list of code points, canonical JSON, SHA-256 and time
--
-- A Python method that runs in a transaction is a function from the database to a result with a new
-- database, or to an exception, on which the database is as it was (Base/Results). Calls of several
-- processes are a list: SQLite lets one writing transaction in at a time. A method of the service
-- keeps what its earlier transactions committed when it raises later (Service/Session).
--
-- JSON columns hold the object that was serialized: a stored text that is no JSON object does not
-- occur. Equal JSON values are compared as Python compares the parsed ones, by key.
--
-- Parameters: SHA-256, the float conversions between a datetime and its microseconds, the ISO
-- spelling of a datetime with its parsing, and `str.lower` are fields of a `Platform`; identifiers
-- that uuid4() gives and the readings of the clock are arguments. A clock that does not go back is a
-- hypothesis where a theorem needs it. Times are instants from 1970 on. The times of one package's
-- events all have a time zone or all have none; Python refuses to sort a mixture. `json.loads` of a
-- ledger event's detail, and what pydantic dumps of a worker's result and reads back, are arguments.
-- The autoincremented number of an audit row is one more than the rows, since SQLite counts up by one
-- and no row is ever deleted.
--
-- Bounds: the printing of a number in decimal recurses on fuel, one more than the number, which is
-- more than its digits. The loop of `_all_events` recurses on fuel, one more than the stored
-- reviews: each round but the last takes at least one of them. `str.isdigit` is read on ASCII digits
-- only. Integers of the store are below 2^63 in SQLite; the model's are unbounded, since counters
-- grow by one for each call. The limits of the code (lease of 1800 seconds, 512 characters, 14 days
-- of retention) are written out.
--
-- Not modelled: the migration of older schemas, connections and file handling, candidate publication, session stores, routes and configuration, the
-- web interface and the capture agent, which are other languages.
pub mod Audit
pub mod Auth
pub mod Base
pub mod Checks
pub mod Dataset
pub mod Json
pub mod Platform
pub mod Retention
pub mod Safety
pub mod Scope
pub mod Service
pub mod Store
pub mod Text
pub mod Worker
