-- ===== src/Guard.antt =====
-- The parts that take an account out of use for a time: circuitbreaker and cooldown.
pub mod Window
pub mod CircuitBreaker
pub mod Cooldown
