-- ===== src/Core.antt =====
-- core/ and storage/layout.py: names and paths.
pub mod Ids
pub mod Layout
pub mod WorkerPaths
pub mod BindMounts
