-- ===== src/Store.antt =====
-- internal/cluster/store.go: the durable store. Its buckets are association lists; a transaction
-- that returns an error leaves them as they were.
pub mod Events
pub mod RateLimit
mod Tests
