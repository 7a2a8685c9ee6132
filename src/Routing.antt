-- ===== src/Routing.antt =====
-- src/xpd_report_agent/api/hermes_routing.py: the node that a request goes to.
pub mod Request
pub mod Resolve
pub mod Bound
pub mod Fixed
mod Tests
