-- ===== src/Lib.antt =====
-- A model of the report agent (Python, src/xpd_report_agent), with the theorems that make its parts
-- correct.
--
-- The API process takes analysis requests, runs them as agent runs on Hermes instances, and serves
-- their results; a database plugin inside Hermes runs the queries and keeps their rows for reports.
-- The parts meet at identifiers: an owner scope and a session id, which every store checks.
--
-- Files and sources:
--   Prelude         tests, lists, texts, dictionaries in insertion order, JSON values, the stable
--                   sort, the identifier patterns of hermes_pool.py and bounded settings
--   AgentRuns       src/xpd_report_agent/api/agent_runs.py: Run and Validate (records and their
--                   checks), File (_load and _save), Updates (the update functions), Store (the
--                   methods of AgentRunStore), Operations (a call as data, and sequences of calls),
--                   Moves (the legal moves of one run), Effects, History and Calls (the proofs)
--   QueryResults    src/xpd_report_agent/hermes_plugin/db_query/query_results.py: Registry (the
--                   settings, _prune, _make_room, store and get), Eviction, Bounds and Reads
--   Clarifications  src/xpd_report_agent/runtime/hermes_clarify.py: Registry (create, discard,
--                   expire_session, wait, answer, pending_count), Calls, Answers and Sessions
--   Routes          src/xpd_report_agent/hermes_pool.py: Store (HermesRouteStore), Pool (HermesPool and
--                   its choice of a node), Sessions (its other methods), Nodes (the configured
--                   nodes), Calls (sequences of writing calls), Binding, Sticky, Early,
--                   Owners, Choice and Select
--   Capacity        src/xpd_report_agent/api/agent_capacity.py: Slots (the configured limit and the
--                   steps of slot) and Limit
--   Schedules       src/xpd_report_agent/api/schedule_store.py: Store (schedules), Claim (claim_run and
--                   the other operations on runs), Once and Sessions (metadata_for_session)
--   JoinGraph       src/xpd_report_agent/hermes_plugin/db_query/join_graph.py: Search (build_graph,
--                   shortest_path and find_join_paths), Rounds (its loop), Walks, Shortest and
--                   Answer
--   Reflections     src/xpd_report_agent/api/reflections.py: Queue (jobs and their checks), Steps (the
--                   methods of ReflectionQueue and the steps of its tasks), Attempts, Untouched and
--                   Replay
--   Identity        src/xpd_report_agent/api/session_service.py and src/xpd_report_agent/memory_paths.py:
--                   Scopes (keys, owner scopes, session ids), Messages (turns and public forms) and
--                   Ownership
--   Errors          src/xpd_report_agent/api/error_contract.py: Contract
--   ServiceAuth     src/xpd_report_agent/api/service_auth.py: Config, Bearer (the header) and Access
--   SqlGuard        src/xpd_report_agent/hermes_plugin/db_query/sql_guard.py: Columns, Statement (what
--                   the guard asks of a parsed statement), Validate and Accepted
--   Routing         src/xpd_report_agent/api/hermes_routing.py: Request, Resolve (resolve_hermes_node on
--                   top of Routes), Bound and Fixed
--   Upstream        src/xpd_report_agent/api/sessions.py: Request (_hermes_json behind its node, and
--                   _raise_upstream) and Sends
--   RunEvents       src/xpd_report_agent/api/sessions.py: Buffer (_publish_agent_run_event and its
--                   readers), Order, Frames (server-sent events and Last-Event-ID), Relay
--                   (_relay_hermes_sse_with_artifacts) and Forward
--   Consolidation   src/xpd_report_agent/api/memory_consolidation.py: Manager and Verdict
--   Discovery       src/xpd_report_agent/kubernetes_discovery.py: Slices (the nodes in the endpoint
--                   slices) and Fetch (the pages and the cache)
--
-- Correspondence: a method that changes state takes the state as its last argument and returns the
-- new one; a raised exception is a value of the result type. A Python dictionary is a list of pairs
-- in insertion order. The bodies of the locks are single steps, since each holds its lock from its
-- first read to its last write. The clock, fresh ids, hashes and the failure of a write are arguments.
--
-- Bounds and fuel: loops are structural recursion on the list that the source walks or on the attempts
-- that are left. The while loop of
-- shortest_path runs on fuel, one round more than the graph has edges, and it has a result for a fuel
-- that ran out; JoinGraph.Rounds shows that this result does not arise.
--
-- sqlglot, the SQL parser, is a library: a statement is the record of the answers that its tree gives.
--
-- Not modelled: file locks and permissions, the HTTP handlers, SQL execution, the rendering of
-- documents, and the patches of third-party packages at run time.
-- Owner scopes are ASCII texts: hmac.compare_digest raises a TypeError on others in agent_runs.py and
-- schedule_store.py. A checkpoint of a run has the fields that the store and its callers use.

pub mod Prelude
pub mod AgentRuns
pub mod Capacity
pub mod Clarifications
pub mod Consolidation
pub mod Discovery
pub mod Errors
pub mod Identity
pub mod JoinGraph
pub mod QueryResults
pub mod Reflections
pub mod Routes
pub mod Routing
pub mod RunEvents
pub mod Schedules
pub mod ServiceAuth
pub mod SqlGuard
pub mod Upstream
