-- ===== src/Jobs.antt =====
-- internal/cluster/store.go: the life of a job, from its queue entry to its end. Records has its data,
-- Tables the store, and the other files one operation or one table each.
pub mod Records
pub mod Labels
pub mod Failures
pub mod Queue
pub mod Locks
pub mod Probes
pub mod Tables
pub mod Prepare
pub mod Admit
pub mod Assign
pub mod Run
pub mod Cancel
pub mod Complete
pub mod Recover
pub mod Machine
mod Tests
