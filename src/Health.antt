-- ===== src/Health.antt =====
-- The health of discovered web services and its cache:
-- internal/agentcore/webservice/collector_health_cache.go and collector_health_probe.go.
pub mod Service
pub mod Cache
pub mod Evict
pub mod Bounds
pub mod Fresh
mod Tests
