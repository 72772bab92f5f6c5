-- ===== src/Metrics.antt =====
-- src/metrics_api: what the dashboard is sent.
pub mod Timeline
pub mod Repository
pub mod Server
