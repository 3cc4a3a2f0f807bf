-- ===== src/Load.antt =====
-- bench/cmd/load: the load generator.
pub mod Calls
pub mod Workers
pub mod Report
pub mod Counts
pub mod Totals
pub mod Percentile
mod Examples
