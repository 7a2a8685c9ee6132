-- ===== src/AgentRuns/History.antt =====
-- What any sequence of calls of the store in src/xpd_report_agent/api/agent_runs.py does to a
-- stored run: it stays, moves along the state machine, and only its owner moves it.
pub mod Lookup
pub mod Consistent
pub mod Legal
