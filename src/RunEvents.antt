-- ===== src/RunEvents.antt =====
-- The events of agent runs that the API streams, src/xpd_report_agent/api/sessions.py.
pub mod Buffer
pub mod Frames
pub mod Relay
pub mod Forward
pub mod Order
mod Tests
