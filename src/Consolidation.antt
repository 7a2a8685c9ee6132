-- ===== src/Consolidation.antt =====
-- The background consolidation of memories, src/xpd_report_agent/api/memory_consolidation.py.
pub mod Manager
pub mod Verdict
mod Tests
