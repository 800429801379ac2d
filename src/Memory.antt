-- ===== src/Memory.antt =====
-- driver/memory: the in-memory backend. The parts of the driver stand in the modules below.
pub mod State
pub mod Jobs
pub mod Claims
pub mod Edits
pub mod Queues
pub mod Leases
pub mod Listener
pub mod Run
pub mod Rows
pub mod Lifecycle
pub mod Fetch
pub mod Frames
pub mod Steps
pub mod Insert
pub mod Distinct
pub mod Invariant
pub mod Fencing
pub mod Unique
pub mod Untouched
pub mod Terminal
pub mod Stats
pub mod Interfaces
mod Scenarios
