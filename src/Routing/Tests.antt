-- ===== src/Routing/Tests.antt =====
-- Tests of Routing on a pool of two nodes.
use xpd_report_agent.Prelude.Text.{len}
use xpd_report_agent.Prelude.{
  String, ◌≡◌, refl, Bool, true, false, none, some, [], ◌∷◌, str_eq, if◌then◌else◌,
}
use xpd_report_agent.Prelude.Json.{Json, Fields, get}
use xpd_report_agent.Prelude.Dict.{lookup, insert, remove}
use xpd_report_agent.Prelude.Patterns.{owner_scope_from_session_id, is_owner_scope}
use xpd_report_agent.Prelude.Result.{ok, err}
use xpd_report_agent.Routes.Store.{
  takes, RouteFile, missing, routes, empty_state, load_state, write_state, node_id_for_scope,
  node_id_for_session, scope_bound, bind_scope, session_bound, bind_session, move_sessions,
  scope_rebound, write_rebound, rebind_scope_if_matches, remove_session,
}
use xpd_report_agent.Routes.Pool.{
  HermesNode, HermesPool, node, find_node, multi_node, persistent_routing, primary_node, nodes_of,
  candidate_nodes, assignment_count, least, greatest, pick, choose, read_bindings, select_node,
  bound_node_for_scope, bound_node_for_session, settle, assign_new, assign_scope,
}
use xpd_report_agent.Routes.Sessions.{pool_bind_session, pool_rebind, pool_remove_session}
use xpd_report_agent.Routing.Request.{
  pool_unavailable, session_ownership_mismatch, session_of_path, session_id_from_request,
  is_scheduler_path,
}
use xpd_report_agent.Routing.Resolve.{
  Context, Answer, response, http_error, health_of, probe_from, probe_hermes_nodes,
  available_node_ids, bound_to, migrate_to, migrate, kept, keep_or_migrate, assign_of, assign,
  persisted_node_id, resolve_persisted, resolve_in, resolve_hermes_node, forget_session_route,
}
use xpd_report_agent.Routing.Bound.{IsBoundTo, resolve_hermes_node-IsBoundTo}
use xpd_report_agent.Routing.Fixed.{resolve_hermes_node_fixed}

program : Unit {0}
unfolding get lookup insert remove owner_scope_from_session_id is_owner_scope empty_state load_state
    write_state node_id_for_scope node_id_for_session scope_bound bind_scope session_bound
    bind_session move_sessions scope_rebound write_rebound rebind_scope_if_matches remove_session
    node find_node multi_node persistent_routing primary_node nodes_of candidate_nodes
    assignment_count least greatest pick choose read_bindings select_node bound_node_for_scope
    bound_node_for_session settle assign_new assign_scope pool_bind_session pool_rebind
    pool_remove_session session_of_path session_id_from_request is_scheduler_path health_of
    probe_from probe_hermes_nodes available_node_ids bound_to migrate_to migrate kept
    keep_or_migrate assign_of assign persisted_node_id resolve_persisted resolve_in
    resolve_hermes_node forget_session_route
program = tt

abbrev session : String
session = "xpd_0123456789abcdef0123_1f"

abbrev path : String
path = "/api/sessions/xpd_0123456789abcdef0123_1f/messages"

abbrev node_a : HermesNode
node_a = record { node_id = "a"; origin = "http://a" }

abbrev node_b : HermesNode
node_b = record { node_id = "b"; origin = "http://b" }

abbrev pool : Bool → HermesPool
pool allow = record {
  nodes = node_a ∷ node_b ∷ [];
  scheduler_node_id = "a";
  allow_route_rebinding = allow;
}

-- Node a does not answer.
abbrev answer : HermesNode → Answer
answer n = if str_eq n.node_id "a" then http_error "ConnectError" else response true 200

abbrev context : Context
context = record {
  digest = λ key id. len id;
  world = record { between = λ k f. f; disk = takes };
  answer = answer;
}

abbrev text_of : Json → String
text_of (Json.str s) = s
text_of v = ""

abbrev on_a : RouteFile
on_a = routes (record { scopes = ("0123456789abcdef0123", "a") ∷ []; sessions = [] })

abbrev on : String → RouteFile
on id =
    routes (record { scopes = ("0123456789abcdef0123", id) ∷ []; sessions = (session, id) ∷ [] })

-- A first request goes to the node that answers.
first :
    resolve_hermes_node context text_of (some (pool false)) path none none missing
    ≡ record { outcome = ok node_b; file = on "b" }
unfolding program
first = refl

-- A persisted node is kept although its probe would fail.
stays :
    resolve_hermes_node context text_of (some (pool false)) path none none on_a
    ≡ record { outcome = ok node_a; file = on "a" }
unfolding program
stays = refl

-- A route to a node that is gone is moved, if routes may be moved.
moved :
    resolve_hermes_node context text_of (some (pool true)) path none none (on "c")
    ≡ record { outcome = ok node_b; file = on "b" }
unfolding program
moved = refl

not_moved :
    resolve_hermes_node context text_of (some (pool false)) path none none (on "c")
    ≡ record { outcome = err (pool_unavailable (some "c")); file = on "c" }
unfolding program
not_moved = refl

foreign :
    resolve_hermes_node context text_of
      (some (pool false))
      path
      (some "ffffffffffffffffffff")
      none
      missing
    ≡ record { outcome = err session_ownership_mismatch; file = missing }
unfolding program
foreign = refl

created :
    session_id_from_request text_of "/api/sessions/"
      (some (Fields.field "id" (Json.str session) Fields.end))
    ≡ some session
unfolding program
created = refl

resolve_hermes_node-IsBoundTo_example :
    IsBoundTo session node_b
      (resolve_hermes_node context text_of (some (pool true)) path none none (on "c")).file
unfolding program
resolve_hermes_node-IsBoundTo_example =
    resolve_hermes_node-IsBoundTo context text_of (pool true) path none none (on "c") refl refl refl
      refl

resolve_hermes_node_fixed_example : node_a.node_id ≡ "a"
unfolding program
resolve_hermes_node_fixed_example =
    resolve_hermes_node_fixed context text_of (pool false) path none none on_a {n = node_a} refl
      refl refl refl refl refl
