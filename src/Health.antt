-- ===== src/Health.antt =====
-- health/: the check items, the checker that orders, runs and schedules them, and the handler of
-- their reports.
pub mod Types
pub mod Sort
pub mod Checker
pub mod Report
pub mod Checks
