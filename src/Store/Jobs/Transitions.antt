-- ===== src/Store/Jobs/Transitions.antt =====
-- What each job operation that succeeds found in the tables and left there.
mod Step
mod Acquire
mod Heartbeat
mod Complete
pub use Step.*
pub use Acquire.*
pub use Heartbeat.*
pub use Complete.*
