-- ===== src/Metrics.antt =====
-- metrics: the histograms of the metrics package.
pub mod Buckets
pub mod Histograms
mod Tests
