-- ===== src/Examples.antt =====
-- The library at work on one small system: its theorems applied to concrete inputs.
mod World
mod Contracts
mod Pick
mod Tries
mod Report
mod Memory
mod Guard
mod Selector
mod Resolver
mod Health
mod Quota
mod Filters
