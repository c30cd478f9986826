-- ===== src/Models.antt =====
-- src/ismet/models/: the typed values that the other parts exchange.
pub mod Symbol
pub mod Orders
pub mod Decimals
mod Tests
