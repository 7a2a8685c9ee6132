-- ===== src/Reflections.antt =====
-- src/xpd_report_agent/api/reflections.py: the durable queue of reflections at the end of a session.
pub mod Queue
pub mod Steps
pub mod Untouched
pub mod Replay
pub mod Attempts
mod Tests
