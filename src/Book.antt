-- ===== src/Book.antt =====
-- src/ismet/marketdata/book.py: an order book built from a snapshot and sequenced deltas.
pub mod Side
pub mod Builder
pub mod Keys
pub mod SideLaws
pub mod Taken
pub mod Top
pub mod Feed
pub mod Safety
pub mod Runs
mod Tests
