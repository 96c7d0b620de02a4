-- ===== src/Metrics.antt =====
-- src/zeroshield/metrics: the measures of a run from the results of its cases, and the
-- comparison of two runs. `sum(latencies) / total` of floats, and every rate a division of two
-- integers.
pub mod Calculator
pub mod Comparator
mod Tests
