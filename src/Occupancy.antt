-- ===== src/Occupancy.antt =====
-- balancer/occupancy: the controllers that bound how many calls use an account at once.
pub mod Contract
pub mod FixedLimit
pub mod AdaptiveLimit
