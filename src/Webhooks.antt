-- ===== src/Webhooks.antt =====
-- internal/webhooks: the deliveries of events to the clients' endpoints, and their retries.
pub mod Schedule
pub mod Tables
pub mod Deliver
pub mod Sound
pub mod Delivering
pub mod Rounds
pub mod Queueing
mod Tests
pub mod Manage
pub mod Managing
pub mod Events
