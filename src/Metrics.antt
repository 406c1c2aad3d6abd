-- ===== src/Metrics.antt =====
-- src/metrics, and the statistics that the servers share.
pub mod Prometheus
pub mod BaseStats
pub mod Registries
pub mod Trackers
pub mod Process
pub mod Status
