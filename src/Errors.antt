-- ===== src/Errors.antt =====
-- The error contract of the API, src/xpd_report_agent/api/error_contract.py.
pub mod Contract
