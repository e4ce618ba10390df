-- ===== src/Selector.antt =====
-- selector/strategies: the strategies that choose an account or a provider among candidates. A
-- strategy with state takes it and returns it.
pub mod Rotation
pub mod Ranking
pub mod Weighted
pub mod Affinity
