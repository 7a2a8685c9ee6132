-- ===== src/Identity.antt =====
-- src/xpd_report_agent/api/session_service.py and src/xpd_report_agent/memory_paths.py: who owns what.
pub mod Scopes
pub mod Messages
pub mod Ownership
mod Tests
