-- ===== src/Billing.antt =====
-- internal/billing: wallets, holds and their settlement, tariffs, the price of a message.
pub mod Rounding
pub mod Money
pub mod Pdu
pub mod Post
pub mod Sms
pub mod Credit
pub mod Lookup
pub mod Reaper
pub mod Tariffs
pub mod Ledger
mod Tests
