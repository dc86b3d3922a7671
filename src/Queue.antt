-- ===== src/Queue.antt =====
-- internal/cluster/store.go: the order in which queued jobs are offered to nodes.
pub mod Fair
mod Tests
