-- ===== src/Metrics.antt =====
-- The metrics of src/core/core.impl/MGDFMetrics.hpp and MGDFMetrics.cpp: the keys that tags are stored
-- under, and what counters, gauges and histograms keep for each key.
pub mod Tags
pub mod Values
