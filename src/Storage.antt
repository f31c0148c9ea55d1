-- ===== src/Storage.antt =====
-- storage/store.py: the controller's database.
pub mod Schema
pub mod Cases
pub mod Templates
pub mod Runs
pub mod Batches
pub mod Claim
pub mod Progress
pub mod Merge
pub mod Exceptions
pub mod Status
pub mod Rerun
pub mod Jobs
pub mod Workers
pub mod Sharding
pub mod Clone
