-- ===== src/Routes/Sessions.antt =====
-- The other methods of `HermesPool` of src/xpd_report_agent/hermes_pool.py: they bind through the
-- store, and only to nodes of the pool.
use xpd_report_agent.Prelude.{ℕ, String, Option, none, some, if◌then◌else◌}
use xpd_report_agent.Prelude.Result.{ok, err, guard, ◌>>=◌, ◌>>◌}
use xpd_report_agent.Routes.Store.{
  Disk, route_unavailable, Routed, RouteFile, owner_of, bind_scope, bind_session,
  rebind_scope_if_matches, remove_session,
}
use xpd_report_agent.Routes.Pool.{
  HermesNode, HermesPool, World, node, persistent_routing, bound_node_for_session, assign_scope,
}

unfoldable pub pool_bind_scope :
    Disk → HermesPool → String → String → RouteFile → Routed (HermesNode × RouteFile)
pool_bind_scope disk p scope node_id f = do
  n ← node p node_id
  written ← (if persistent_routing p then bind_scope disk scope node_id f else ok f)
  ok (n, written)

unfoldable pub pool_bind_session :
    Disk → HermesPool → String → String → RouteFile → Routed (HermesNode × RouteFile)
pool_bind_session disk p session_id node_id f = do
  n ← node p node_id
  written ← (if persistent_routing p then bind_session disk session_id node_id f else ok f)
  ok (n, written)

-- `node_for_session` behind its first read
unfoldable pub node_for_new :
    (String → String → ℕ)
    → World
    → HermesPool
    → String
    → RouteFile
    → Option HermesNode
    → Routed (HermesNode × RouteFile)
node_for_new digest w p session_id f (some n) = ok (n, f)
node_for_new digest w p session_id f none = do
  scope ← owner_of session_id
  (n, assigned) ← assign_scope digest w p scope none f
  pool_bind_session w.disk p session_id n.node_id (w.between 3 assigned)

unfoldable pub node_for_session :
    (String → String → ℕ)
    → World
    → HermesPool
    → String
    → RouteFile
    → Routed (HermesNode × RouteFile)
node_for_session digest w p session_id f = do
  existing ← bound_node_for_session p session_id f
  node_for_new digest w p session_id f existing

unfoldable pub pool_remove_session : Disk → HermesPool → String → RouteFile → Routed RouteFile
pool_remove_session disk p session_id f =
    if persistent_routing p then remove_session disk session_id f else ok f

unfoldable pub pool_rebind :
    Disk → HermesPool → String → String → String → RouteFile → Routed (HermesNode × RouteFile)
pool_rebind disk p scope expected replacement f = do
  guard p.allow_route_rebinding route_unavailable
  _ ← node p replacement
  (current, written) ← rebind_scope_if_matches disk scope expected replacement f
  elim current [
    | none ↦ err route_unavailable
    | some node_id ↦ do n ← node p node_id; ok (n, written)
  ]
