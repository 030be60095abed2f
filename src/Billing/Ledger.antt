-- ===== src/Billing/Ledger.antt =====
-- What the wallets promise: their balances are the sums of the ledger rows, no hold is settled for
-- more than it holds, and keys and ids are used once.
pub mod Sums
pub mod Invariant
pub mod Posting
pub mod Moves
pub mod Holds
pub mod SmsMoves
pub mod CreditMoves
pub mod LookupMoves
pub mod RemainderMoves
pub mod Operations
pub mod Reaping
pub mod Once
pub mod ReserveOnce
pub mod Marking
pub mod SettleOnce
pub mod Closing
pub mod Placing
pub mod Afford
pub mod Tests
mod CallTests
pub mod AffordTests
