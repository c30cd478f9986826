-- ===== src/Execution.antt =====
-- src/ismet/execution/: the order state machine.
pub mod State
pub mod Reports
pub mod Apply
pub mod Fills
pub mod Lifecycle
pub mod Illegal
pub mod Counting
pub mod Exposure
pub mod Replay
mod Tests
pub mod Books
