-- ===== src/Clarifications.antt =====
-- src/xpd_report_agent/runtime/hermes_clarify.py: the registry where a Hermes worker waits for the
-- answer that an HTTP request brings.
pub mod Registry
pub mod Calls
pub mod Answers
pub mod Sessions
mod Tests
