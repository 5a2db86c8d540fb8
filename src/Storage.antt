-- ===== src/Storage.antt =====
-- The SQLite database of server-package/crates/frp-game-server/src/storage.rs: its tables and the
-- statements on them, a snapshot of the configuration, saving and reading.
pub mod Tables
pub mod Snapshot
pub mod Read
pub mod Recover
pub mod Legacy
pub mod Operations
pub mod Written
pub mod Represents
pub mod Traffic
pub mod Counters
pub mod Open
pub mod Succeeds
pub mod Clash
pub mod Invariant
pub mod Ordered
pub mod Pushed
pub mod Loaded
pub mod Recovered
pub mod Refinement
pub mod Tests
