-- ===== src/Balancer.antt =====
-- balancer/: selection of an account (`Pick`), and the reports of a call's result that drive the
-- circuit breaker and the cooldown. The definitions are in Types, Pick and Report; the other
-- children prove what holds of them.
pub mod Types
pub mod Pick
pub mod Report
