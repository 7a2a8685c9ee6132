-- ===== src/SqlGuard.antt =====
-- The SQL guard, src/xpd_report_agent/hermes_plugin/db_query/sql_guard.py.
pub mod Columns
pub mod Statement
pub mod Validate
pub mod Accepted
mod Tests
