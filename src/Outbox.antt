-- ===== src/Outbox.antt =====
-- internal/outbox/worker.go, internal/messaging/match.go: the worker that sends what is queued.
pub mod Match
pub mod World
pub mod Parking
pub mod Accepting
pub mod Complaint
pub mod Worker
pub mod Tick
pub mod Untouched
pub mod Effects
pub mod Endings
pub mod Handling
pub mod Lifecycle
pub mod Claiming
pub mod Reconciling
pub mod Refinement
pub mod Silence
pub mod Posting
pub mod Caution
pub mod Matching
mod Tests
pub mod Closed
pub mod Keeping
pub mod Solvency
