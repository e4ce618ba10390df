-- ===== src/Memory.antt =====
-- storage/memory: the store that keeps everything in maps. Each operation is a function of the part
-- of the store that it touches, run while the code holds that part's lock; `now` is the time that it
-- reads. Stats, Occupancy and Usage work on one map, Accounts on the accounts with
-- the providers, and Providers on those and the indexes of the providers.
pub mod Stats
pub mod Occupancy
pub mod Accounts
pub mod Usage
pub mod Providers
