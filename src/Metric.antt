-- ===== src/Metric.antt =====
-- internal/metric: the metrics store.
pub mod Types
pub mod Registry
pub mod Keys
pub mod Collector
pub mod Histogram
pub mod Checks
mod Tests
