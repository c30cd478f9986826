-- ===== src/Transport.antt =====
-- src/ismet/transport/: the circuit breaker.
pub mod Circuit
mod Tests
