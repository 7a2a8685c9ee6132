-- ===== src/Capacity.antt =====
-- src/xpd_report_agent/api/agent_capacity.py: the process-wide limit on concurrent analyses.
pub mod Slots
pub mod Limit
mod Tests
