-- ===== src/AgentRuns.antt =====
-- src/xpd_report_agent/api/agent_runs.py: the durable store of idempotent Agent runs.
pub mod Run
pub mod Validate
pub mod File
pub mod Updates
pub mod Store
pub mod Moves
pub mod Operations
pub mod Effects
pub mod History
pub mod Calls
mod Tests
