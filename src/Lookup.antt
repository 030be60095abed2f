-- ===== src/Lookup.antt =====
-- internal/lookup: the states of lookup items and jobs, the phone lists of a job, and the worker.
pub mod State
pub mod Phone
pub mod PhoneLaws
pub mod Prepare
pub mod Chunks
pub mod Apply
pub mod Merging
mod Tests
mod MergeTests
pub mod Items
pub mod Callbacks
pub mod Claims
pub mod Counters
pub mod World
pub mod Ending
pub mod Update
pub mod Incoming
pub mod Stored
pub mod Submit
pub mod Worker
pub mod Enrich
pub mod Receiving
pub mod Calls
pub mod Closed
pub mod ClosedEndings
pub mod ClosedUpdates
pub mod ClosedWorker
pub mod ClosedPolls
pub mod ClosedCallbacks
pub mod ClosedRounds
pub mod ClosedCalls
pub mod Settling
pub mod Steps
pub mod Changes
pub mod Unique
pub mod Forward
pub mod Unsigned
pub mod Alone
pub mod AloneReports
pub mod Connected
pub mod Targets
pub mod Stuck
mod CallbackTests
pub mod TimingOut
mod WorkerTests
pub mod Recounting
pub mod Finishing
