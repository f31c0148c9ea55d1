-- ===== src/Tests.antt =====
-- Runs of the model on small states.
mod Data
mod Scheduling
mod Reports
mod Reruns
mod Fleet
mod Jobs
mod Updates
mod Names
mod Exceptions
mod Syncs
mod Starts
mod Sharding
mod Harbor
mod Clones
