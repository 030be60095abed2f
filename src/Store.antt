-- ===== src/Store.antt =====
-- internal/db/sqlc: the tables that the services keep in PostgreSQL and the statements they run.
-- A table is the list of its rows, newest first; a statement is a function of the tables. A
-- transaction is a function from the database to a result: an error leaves the old database, which
-- is the deferred Rollback, and `ok` with a database is the Commit.
pub mod Types
pub mod Errors
pub mod Wallets
pub mod Ledger
pub mod Rows
pub mod Tariffs
pub mod Outbox
pub mod Queue
pub mod Messages
pub mod Joins
