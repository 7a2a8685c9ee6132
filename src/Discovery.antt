-- ===== src/Discovery.antt =====
-- The discovery of Hermes nodes in Kubernetes, src/xpd_report_agent/kubernetes_discovery.py.
pub mod Slices
pub mod Fetch
mod Tests
