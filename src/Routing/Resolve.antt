-- ===== src/Routing/Resolve.antt =====
-- `resolve_hermes_node` of src/xpd_report_agent/api/hermes_routing.py. The route file may be changed
-- by others between any two calls of the store: `between k` is what they do before the k-th.
use xpd_report_agent.Prelude.{
  ℕ, ◌+◌, String, Bool, false, not, ◌&&◌, Option, none, some, List, [], ◌∷◌, map, ◌==◌, str_eq,
  if◌then◌else◌, length, filter,
}
use xpd_report_agent.Prelude.Json.{Json, Fields}
use xpd_report_agent.Prelude.Dict.{Dict, lookup, insert}
use xpd_report_agent.Prelude.Patterns.{owner_scope_from_session_id}
use xpd_report_agent.Prelude.Result.{Outcome, ok, err, ◌>>=◌}
use xpd_report_agent.Routes.Store.{
  Disk, left_by, RouteError, value_error, route_conflict, route_unavailable, configuration, Routed,
  RouteFile, if_any, node_id_for_scope, node_id_for_session, remove_session,
}
use xpd_report_agent.Routes.Pool.{
  HermesNode, HermesPool, World, node, primary_node, persistent_routing, select_node, assign_scope,
}
use xpd_report_agent.Routes.Sessions.{pool_bind_session, pool_rebind, pool_remove_session}
use xpd_report_agent.Routing.Request.{
  ResolveError, pool_unavailable, session_ownership_mismatch, raised, session_id_from_request,
  is_scheduler_path,
}

-- The node or the error, and the route file: as the last call of the store left it, or, after an
-- error, as the failing write left it or else as the failing call of the pool met it.
pub record Resolved : Type 0 where
  pub outcome : Outcome ResolveError HermesNode
  pub file : RouteFile

abbrev pub fails : ResolveError → RouteFile → Resolved
fails e f = record { outcome = err e; file = f }

abbrev pub gives : HermesNode → RouteFile → Resolved
gives n f = record { outcome = Outcome.ok n; file = f }

-- The exceptions that become a 503: of the calls that bind, and of those that read.
abbrev pub caught : RouteError → ResolveError
caught route_conflict = pool_unavailable none
caught route_unavailable = pool_unavailable none
caught e = raised e

abbrev pub read_failed : RouteError → ResolveError
read_failed value_error = pool_unavailable none
read_failed configuration = pool_unavailable none
read_failed route_unavailable = pool_unavailable none
read_failed e = raised e

abbrev pub from_route : (RouteError → ResolveError) → RouteFile → Routed HermesNode → Resolved
from_route handler f (ok n) = gives n f
from_route handler f (err e) = fails (handler e) f

-- `pool.bind_session(session_id, node.node_id)`, if there is a session
abbrev pub bind_if : Disk → HermesPool → Option String → HermesNode → RouteFile → Routed RouteFile
bind_if disk p none n f = ok f
bind_if disk p (some session_id) n f = do
  (_, written) ← pool_bind_session disk p session_id n.node_id f
  ok written

-- The same, and then the node
unfoldable pub bound_to : RouteFile → HermesNode → Routed RouteFile → Resolved
bound_to f n (ok written) = gives n written
bound_to f n (err e) = fails (caught e) (left_by e f)

-- The answer to a health probe: a response, with whether its status is a success, or the name of the
-- class of the error of the HTTP client.
pub data Answer : Type 0 where
  response : Bool → ℕ → Answer
  http_error : String → Answer

pub record Health : Type 0 where
  pub ok : Bool
  pub status_code : Option ℕ
  pub error : Option String

unfoldable pub health_of : Answer → Health
health_of (response is_success status) = record {
  ok = is_success;
  status_code = some status;
  error = if is_success then none else some "health check failed";
}
health_of (http_error name) = record { ok = false; status_code = none; error = some name }

-- `dict(results)`: of two nodes with one id the later stands
unfoldable pub probe_from : (HermesNode → Answer) → List HermesNode → Dict Health → Dict Health
probe_from answer [] health = health
probe_from answer (n ∷ ns) health =
    probe_from answer ns (insert n.node_id (health_of (answer n)) health)

unfoldable pub probe_hermes_nodes : (HermesNode → Answer) → HermesPool → Dict Health
probe_hermes_nodes answer p = probe_from answer p.nodes []

abbrev is_healthy : Option Health → Bool
is_healthy none = false
is_healthy (some h) = h.ok

unfoldable pub available_node_ids : (HermesNode → Answer) → HermesPool → List String
available_node_ids answer p =
    let health = probe_hermes_nodes answer p in
    filter (λ id. is_healthy (lookup id health)) (map (λ n. n.node_id) p.nodes)

-- What stays the same during a call: the digest of a route key and a node, the other callers, the
-- answers of the health probes.
pub record Context : Type 0 where
  pub digest : String → String → ℕ
  pub world : World
  pub answer : HermesNode → Answer

-- `between` from the k-th call of the store on
abbrev pub later : ℕ → World → World
later k w = record w { between = λ i f. w.between (k + i) f }

abbrev pub then_bind :
    Context
    → ℕ
    → HermesPool
    → Option String
    → RouteFile
    → Routed (HermesNode × RouteFile)
    → Resolved
then_bind c k p session_id f (ok (n, written)) =
    let now = c.world.between k written in bound_to now n (bind_if c.world.disk p session_id n now)
then_bind c k p session_id f (err e) = fails (caught e) (left_by e f)

-- The move of a session whose node is gone
unfoldable pub migrate_to :
    Context
    → HermesPool
    → Option String
    → String
    → String
    → RouteFile
    → Routed HermesNode
    → Resolved
migrate_to c p session_id route_scope persisted f (err e) = fails (raised e) f
migrate_to c p session_id route_scope persisted f (ok replacement) =
    let now = c.world.between 3 f in
    then_bind c 4 p session_id now
      (pool_rebind c.world.disk p route_scope persisted replacement.node_id now)

unfoldable pub migrate :
    Context → HermesPool → Option String → Option String → String → RouteFile → Resolved
migrate c p session_id none persisted f = fails (pool_unavailable (some persisted)) f
migrate c p session_id (some route_scope) persisted f =
    if not p.allow_route_rebinding
    then fails (pool_unavailable (some persisted)) f
    else if length (available_node_ids c.answer p) == 0
    then fails (pool_unavailable none) f
    else let read = c.world.between 2 f in
      migrate_to c p session_id route_scope persisted read
        (select_node c.digest p route_scope (some (available_node_ids c.answer p)) read)

-- The `except` clauses around the persisted node
unfoldable pub kept :
    Context
    → HermesPool
    → Option String
    → Option String
    → String
    → RouteFile
    → HermesNode
    → Routed RouteFile
    → Resolved
kept c p session_id route_scope persisted f n (ok written) = gives n written
kept c p session_id route_scope persisted f n (err route_unavailable) =
    migrate c p session_id route_scope persisted f
kept c p session_id route_scope persisted f n (err route_conflict) = fails (pool_unavailable none) f
kept c p session_id route_scope persisted f n (err e) = fails (raised e) (left_by e f)

unfoldable pub keep_or_migrate :
    Context
    → HermesPool
    → Option String
    → Option String
    → String
    → RouteFile
    → Routed HermesNode
    → Resolved
keep_or_migrate c p session_id route_scope persisted f (ok n) =
    let now = c.world.between 1 f in
    kept c p session_id route_scope persisted now n (bind_if c.world.disk p session_id n now)
keep_or_migrate c p session_id route_scope persisted f (err e) =
    migrate c p session_id route_scope persisted f

-- A new assignment. Others act while the health of the nodes is probed, before `assign_scope` reads.
unfoldable pub assign_of :
    Context → HermesPool → Option String → Option String → RouteFile → List String → Resolved
assign_of c p session_id route_scope f [] = fails (pool_unavailable none) f
assign_of c p session_id (some scope) f (first ∷ rest) =
    let now = c.world.between 1 f in
    then_bind c 5 p session_id now
      (assign_scope c.digest (later 2 c.world) p scope (some (first ∷ rest)) now)
assign_of c p session_id none f (first ∷ rest) = from_route raised f (node p first)

unfoldable pub assign : Context → HermesPool → Option String → Option String → RouteFile → Resolved
assign c p session_id route_scope f =
    assign_of c p session_id (if_any route_scope) f (available_node_ids c.answer p)

-- The node that the store names
unfoldable pub persisted_node_id :
    Option String → Option String → RouteFile → Routed (Option String)
persisted_node_id (some session_id) route_scope f = node_id_for_session session_id f
persisted_node_id none route_scope f = elim (if_any route_scope) [
  | some scope ↦ node_id_for_scope scope f
  | none ↦ ok none
]

unfoldable pub resolve_persisted :
    Context
    → HermesPool
    → Option String
    → Option String
    → RouteFile
    → Routed (Option String)
    → Resolved
resolve_persisted c p session_id route_scope f (err e) = fails (read_failed e) f
resolve_persisted c p session_id route_scope f (ok none) = assign c p session_id route_scope f
resolve_persisted c p session_id route_scope f (ok (some persisted)) =
    keep_or_migrate c p session_id route_scope persisted f (node p persisted)

-- `scope and session_scope and scope != session_scope`
abbrev pub mismatch : Option String → Option String → Bool
mismatch none session_scope = false
mismatch (some scope) none = false
mismatch (some scope) (some session_scope) =
    not (str_eq scope "") && not (str_eq scope session_scope)

-- `session_scope or scope`
abbrev pub or_scope : Option String → Option String → Option String
or_scope none scope = scope
or_scope (some session_scope) scope = some session_scope

abbrev pub scheduler_failed : HermesPool → RouteError → ResolveError
scheduler_failed p route_unavailable = pool_unavailable (some p.scheduler_node_id)
scheduler_failed p e = raised e

abbrev pub scope_of_session : Option String → Option String
scope_of_session none = none
scope_of_session (some session_id) = owner_scope_from_session_id session_id

-- `resolve_hermes_node` behind the pool and the session of the request
unfoldable pub resolve_in :
    Context → HermesPool → String → Option String → Option String → RouteFile → Resolved
resolve_in c p path scope session_id f =
    let session_scope = scope_of_session session_id in
    let route_scope = or_scope session_scope scope in
    if mismatch scope session_scope
    then fails session_ownership_mismatch f
    else if is_scheduler_path path
    then from_route (scheduler_failed p) f (node p p.scheduler_node_id)
    else if not (persistent_routing p)
    then from_route raised f (primary_node p)
    else resolve_persisted c p session_id route_scope f (persisted_node_id session_id route_scope f)

-- The pool of a discovery that failed is `none`.
unfoldable pub resolve_hermes_node :
    Context
    → (Json → String)
    → Option HermesPool
    → String
    → Option String
    → Option Fields
    → RouteFile
    → Resolved
resolve_hermes_node c str_of none path scope payload f = fails (pool_unavailable none) f
resolve_hermes_node c str_of (some p) path scope payload f =
    resolve_in c p path scope (session_id_from_request str_of path payload) f

-- `forget_session_route`: with discovery the pool is not built.
unfoldable pub forget_session_route :
    Bool → Disk → HermesPool → String → RouteFile → Routed RouteFile
forget_session_route kubernetes disk p session_id f =
    if kubernetes then remove_session disk session_id f else pool_remove_session disk p session_id f
