-- ===== src/QueryResults.antt =====
-- src/xpd_report_agent/hermes_plugin/db_query/query_results.py: the bounded registry of query
-- results that exports are made from.
pub mod Registry
pub mod Eviction
pub mod Bounds
pub mod Reads
mod Tests
