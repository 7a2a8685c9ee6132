-- ===== src/JoinGraph.antt =====
-- src/xpd_report_agent/hermes_plugin/db_query/join_graph.py: how tables join, by breadth first search
-- over the foreign keys.
pub mod Search
pub mod Rounds
pub mod Walks
pub mod Shortest
pub mod Answer
mod Tests
