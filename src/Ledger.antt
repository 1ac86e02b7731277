-- ===== src/Ledger.antt =====
-- internal/ledger: the journal of operations, its recovery, and the leases on worktrees. The rows
-- that the SQL statements read and write are lists; a transaction that fails changes nothing.
pub mod Lease
pub mod Journal
pub mod Recover
mod Examples
