-- ===== src/Accounting.antt =====
-- src/ismet/accounting/__init__.py: the books of one instrument, rebuilt from fills.
pub mod Lots
pub mod Ledger
pub mod Matching
pub mod Position
pub mod Books
pub mod Once
pub mod Invariant
pub mod Recorded
pub mod Applied
mod Tests
