-- ===== src/Routes.antt =====
-- src/xpd_report_agent/hermes_pool.py: the Hermes nodes, the durable binding of owners and sessions to
-- them, and the choice of a node.
pub mod Store
pub mod Pool
pub mod Nodes
pub mod Sessions
pub mod Binding
pub mod Early
pub mod Sticky
pub mod Owners
pub mod Calls
pub mod Choice
pub mod Select
mod Tests
