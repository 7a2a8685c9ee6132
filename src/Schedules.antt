-- ===== src/Schedules.antt =====
-- src/xpd_report_agent/api/schedule_store.py: schedules, and the runs that their callbacks claim.
pub mod Store
pub mod Claim
pub mod Once
pub mod Sessions
mod Tests
