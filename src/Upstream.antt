-- ===== src/Upstream.antt =====
-- The requests of the API to Hermes, src/xpd_report_agent/api/sessions.py.
pub mod Request
pub mod Sends
mod Tests
