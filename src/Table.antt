-- ===== src/Table.antt =====
-- A table of the SQLite database (storage/store.py): its rows in the order of insertion, with a
-- text as the primary key. SQLite itself is not under the repository; this is what the statements
-- of the store use of it. The laws are in the modules below.
pub mod Where
pub mod Keys
pub use Where.*
unfoldable pub use Keys.*
