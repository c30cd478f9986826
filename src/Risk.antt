-- ===== src/Risk.antt =====
-- src/ismet/execution/risk.py: pre-trade risk checks, which fail closed.
pub mod Checks
pub mod Windows
pub mod Scopes
pub mod Held
pub mod Rate
pub mod Duplicates
pub mod Position
pub mod Resting
pub mod Notional
mod Tests
