-- ===== src/Rib.antt =====
-- src/rib.rs: the Resource Information Base.
pub mod Value
pub mod ChangeLog
pub mod Store
pub mod Receive
pub mod History
pub mod Sync
pub mod Retention
pub mod Merge
pub mod Intake
pub mod Snapshot
pub mod File
pub mod Restart
