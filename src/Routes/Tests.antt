-- ===== src/Routes/Tests.antt =====
-- A small run of the routes of src/xpd_report_agent/hermes_pool.py.
use mathlib.Core.List.{Mem}
use xpd_report_agent.Prelude.{
  arith, All, ℕ, String, ◌≡◌, refl, true, false, none, some, List, [], ◌∷◌, str_eq, if◌then◌else◌,
  Option,
}
use xpd_report_agent.Prelude.Dict.{Dict, lookup, insert, remove}
use xpd_report_agent.Prelude.Patterns.{owner_scope_from_session_id, is_owner_scope}
use xpd_report_agent.Prelude.Result.{ok, err}
use xpd_report_agent.Routes.Store.{
  Disk, takes, refuses, raises_late, State, configuration, missing, routes, empty_state, load_state,
  write_state, node_id_for_scope, node_id_for_session, scope_bound, bind_scope, session_bound,
  bind_session, move_sessions, scope_rebound, write_rebound, rebind_scope_if_matches,
  remove_session,
}
use xpd_report_agent.Routes.Pool.{
  HermesNode, HermesPool, World, assignment_count, least, greatest, pick, choose, make_pool,
  are_unique, multi_node, persistent_routing, find_node, node, nodes_of, candidate_nodes,
  read_bindings, select_node, bound_node_for_scope, settle, assign_new, assign_scope,
}
use xpd_report_agent.Routes.Sticky.{FileIsSticky}
use xpd_report_agent.Routes.Calls.{
  Call, call_bind_scope, call_bind_session, call_rebind, call_remove_session, perform, perform_all,
  perform_all-IsSticky,
}
use xpd_report_agent.Prelude.Text.{strip}
use xpd_report_agent.Capacity.Slots.{split_commas}
use xpd_report_agent.Routes.Nodes.{
  SplitUrl, normalize_origin, is_node_id, split_equals, parse_entry, parse_entries,
  configured_hermes_nodes, configured_hermes_nodes-are_unique,
}
use xpd_report_agent.Routes.Select.{AreCandidates, IsPreferred, select_node_lem}

program : Unit {0}
unfolding strip split_commas normalize_origin is_node_id split_equals parse_entry parse_entries
    configured_hermes_nodes lookup insert remove owner_scope_from_session_id is_owner_scope
    empty_state load_state write_state node_id_for_scope node_id_for_session scope_bound bind_scope
    session_bound bind_session move_sessions scope_rebound write_rebound rebind_scope_if_matches
    remove_session assignment_count least greatest pick choose make_pool are_unique multi_node
    persistent_routing find_node node nodes_of candidate_nodes read_bindings select_node
    bound_node_for_scope settle assign_new assign_scope perform perform_all
program = tt

abbrev owner : String
owner = "0123456789abcdef0123"

abbrev session : String
session = "xpd_0123456789abcdef0123_a"

abbrev calls : List (Disk × Call)
calls =
    (takes, call_bind_scope owner "node-a")
    ∷ (takes, call_bind_session session "node-a")
    ∷ (takes, call_bind_session session "node-b")
    ∷ (refuses, call_remove_session session)
    ∷ (raises_late, call_rebind owner "node-a" "node-b")
    ∷ []

moved : node_id_for_session session (perform_all calls missing) ≡ ok (some "node-b")
unfolding program
moved = refl

abbrev node_a : HermesNode
node_a = record { node_id = "node-a"; origin = "http://a" }

abbrev node_b : HermesNode
node_b = record { node_id = "node-b"; origin = "http://b" }

abbrev pool : HermesPool
pool = record {
  nodes = node_a ∷ node_b ∷ [];
  scheduler_node_id = "node-a";
  allow_route_rebinding = false;
}

abbrev world : World
world = record { between = λ n f. f; disk = takes }

-- The node with fewer owners is taken, and bound.
assigns :
    assign_scope (λ k id. 0) world pool "ffffffffffffffffffff" none (perform_all calls missing)
    ≡ ok (
      node_a,
      routes (record {
        scopes = (owner, "node-b") ∷ ("ffffffffffffffffffff", "node-a") ∷ [];
        sessions = (session, "node-b") ∷ [];
      }),
    )
unfolding program
assigns = refl

perform_all-IsSticky_example : FileIsSticky (perform_all calls missing)
unfolding program
perform_all-IsSticky_example =
    perform_all-IsSticky calls missing (refl, (refl, (refl, (tt, (refl, tt))))) tt

abbrev digest : String → String → ℕ
digest k id = if str_eq id "node-a" then 7 else 5

abbrev bindings : Dict String
bindings = ("x", "node-a") ∷ []

abbrev bound : State
bound = record { scopes = bindings; sessions = [] }

abbrev both : Option (List String)
both = some ("node-b" ∷ "node-a" ∷ [])

select_node_example :
    (ns : List HermesNode) × (chosen : HermesNode) × AreCandidates pool both ns
    × (select_node digest pool "k" both (routes bound) ≡ ok chosen)
    × Mem chosen ns
    × All (IsPreferred digest "k" bound chosen) ns
select_node_example =
    select_node_lem digest pool "k" both (routes bound)
      ((λ h. absurd (ground arith)), (refl, (refl, tt))) refl

-- An address of the scheme http without a path.
abbrev split : String → Option SplitUrl
split s = some (record {
  scheme = "http";
  hostname = "h";
  username = "";
  password = "";
  query = "";
  fragment = "";
  path = "";
})

abbrev two_nodes : List HermesNode
two_nodes =
    record { node_id = "a"; origin = "http://a" }
    ∷ record { node_id = "b"; origin = "http://b" }
    ∷ []

duplicate :
    configured_hermes_nodes split (some "a=http://a,a=http://b") none none ≡ err configuration
unfolding program
duplicate = refl

configured_hermes_nodes-are_unique_example : are_unique two_nodes ≡ true
unfolding program
configured_hermes_nodes-are_unique_example =
    configured_hermes_nodes-are_unique split (some "a=http://a, b = http://b/") none none refl
