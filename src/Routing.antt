-- ===== src/Routing.antt =====
-- internal/cluster/routing_health.go: what the relay remembers of failed routes.
pub mod Health
pub mod Outcome
pub mod Selection
mod Tests
