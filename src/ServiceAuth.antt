-- ===== src/ServiceAuth.antt =====
-- Service authentication, src/xpd_report_agent/api/service_auth.py.
pub mod Config
pub mod Bearer
pub mod Access
mod Tests
