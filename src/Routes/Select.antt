-- ===== src/Routes/Select.antt =====
-- `_select_node` of src/xpd_report_agent/hermes_pool.py as a whole: its candidates, the bindings that
-- it counts, and the node that it takes.
use mathlib.Core.List.{Mem, mem-cons_self, mem-cons_of_mem}
use mathlib.Core.Path.{subst}
use xpd_report_agent.Prelude.{
  List-cases, sym, ap, ◌∙◌, any, All, ℕ, ◌≤◌, String, ◌≡◌, refl, ◌≢◌, inl, inr, true, Option, none,
  some, List, [], ◌∷◌, arith, str_eq, eq_iff, map, Bool-cases,
}
use xpd_report_agent.Prelude.Result.{ok}
use xpd_report_agent.Routes.Store.{
  State, RouteFile, missing, broken, routes, load_state, empty_state,
}
use xpd_report_agent.Routes.Calls.{held}
use xpd_report_agent.Routes.Choice.{All-map, choose_lem}
use xpd_report_agent.Routes.Pool.{
  HermesNode, HermesPool, is_node, assignment_count, find_node, node, nodes_of, candidate_nodes,
  read_bindings, select_node,
}

-- The pool has all the nodes that are named, and at least one.
abbrev pub Offers : HermesPool → Option (List String) → Type 0
Offers p none = p.nodes ≢ []
Offers p (some ids) = (ids ≢ []) × All (λ id. any (is_node id) p.nodes ≡ true) ids

-- The nodes of the pool, or those of the given ids in their order.
abbrev pub AreCandidates : HermesPool → Option (List String) → List HermesNode → Type 0
AreCandidates p none ns = ns ≡ p.nodes
AreCandidates p (some ids) ns = (map (λ n. n.node_id) ns ≡ ids) × All (λ n. Mem n p.nodes) ns

-- The node has no more owners than another, and a digest that is no less where they have as many.
abbrev pub IsPreferred : (String → String → ℕ) → String → State → HermesNode → HermesNode → Type 0
IsPreferred digest route_key s chosen m =
    (assignment_count s.scopes chosen ≤ assignment_count s.scopes m)
    × (assignment_count s.scopes m ≡ assignment_count s.scopes chosen
        → digest route_key m.node_id ≤ digest route_key chosen.node_id)

find_node-found :
    (ns : List HermesNode) (id : String)
    → any (is_node id) ns ≡ true
    → (n : HermesNode) × (find_node ns id ≡ ok n) × (n.node_id ≡ id) × Mem n ns
unfolding find_node
find_node-found [] id h = absurd (ground arith)
find_node-found (m ∷ ns) id h = elim (Bool-cases (str_eq m.node_id id)) [
  | inl b ↦ (m, rw b refl, (eq_iff m.node_id id).0 b, mem-cons_self)
  | inr b ↦
      let (n, e, same, mem) = find_node-found ns id (rw b at h) in
      (n, rw b e, same, mem-cons_of_mem _ mem)
]

nodes_of-found :
    (p : HermesPool) (ids : List String)
    → All (λ id. any (is_node id) p.nodes ≡ true) ids
    → (ns : List HermesNode) × (nodes_of p ids ≡ ok ns)
      × (map (λ n. n.node_id) ns ≡ ids)
      × All (λ n. Mem n p.nodes) ns
unfolding nodes_of node
nodes_of-found p [] h = ([], refl, refl, tt)
nodes_of-found p (id ∷ ids) (h, hs) =
    let (n, e, same, mem) = find_node-found p.nodes id h in
    let (ns, es, sames, mems) = nodes_of-found p ids hs in
    (n ∷ ns, rw (e, es) refl, rw (same, sames) refl, (mem, mems))

some_candidate :
    (p : HermesPool) (ids : List String) (ns : List HermesNode)
    → ids ≢ []
    → AreCandidates p (some ids) ns
    → (n : HermesNode) × (rest : List HermesNode) × (ns ≡ n ∷ rest)
some_candidate p ids [] h (e, mems) = absurd (h (sym e))
some_candidate p ids (n ∷ ns) h are = (n, ns, refl)

candidate_nodes-found :
    (p : HermesPool) (available : Option (List String))
    → Offers p available
    → (n : HermesNode) × (ns : List HermesNode) × (candidate_nodes p available ≡ ok (n ∷ ns))
      × AreCandidates p available (n ∷ ns)
unfolding candidate_nodes
candidate_nodes-found p none h = elim (List-cases p.nodes) [
  | inl e ↦ absurd (h e)
  | inr (n, ns, e) ↦ (n, ns, ap ok e, sym e)
]
candidate_nodes-found p (some ids) (full, known) =
    let (ns, e, ids_are, mems) = nodes_of-found p ids known in
    let (n, rest, same) = some_candidate p ids ns full (ids_are, mems) in
    (n, rest, e ∙ ap ok same, subst (AreCandidates p (some ids)) same (ids_are, mems))

load_state-held : (f : RouteFile) {s : State} → held f ≡ some s → load_state f ≡ ok s
unfolding load_state empty_state
load_state-held missing h = ground arith
load_state-held broken h = absurd (ground arith)
load_state-held (routes t) h = ground arith

All-Mem : (ns : List HermesNode) → All (λ n. Mem n ns) ns
All-Mem [] = tt
All-Mem (n ∷ ns) = (
  mem-cons_self,
  All-map (λ m. Mem m ns) (λ m. Mem m (n ∷ ns)) ns (λ m h. mem-cons_of_mem n h) (All-Mem ns),
)

-- If the pool has a node, or, where ids are given, at least one id is given and the pool has a node
-- of each, and if the route file can be read, `_select_node` finds a node. It is one of the pool's
-- nodes, or of the nodes of the given ids; none of these has fewer owners bound in the file, and none
-- with as many owners has a greater digest.
pub select_node_lem :
    (digest : String → String → ℕ) (p : HermesPool) (route_key : String)
    (available : Option (List String)) (f : RouteFile) {s : State}
    → Offers p available
    → held f ≡ some s
    → (ns : List HermesNode) × (chosen : HermesNode) × AreCandidates p available ns
      × (select_node digest p route_key available f ≡ ok chosen)
      × Mem chosen ns
      × All (IsPreferred digest route_key s chosen) ns
unfolding select_node read_bindings
select_node_lem digest p route_key available f {s} offers read =
    let (n, ns, e, are) = candidate_nodes-found p available offers in
    let (chosen, e', (mem, best)) = choose_lem digest route_key s.scopes n ns in
    (
      n ∷ ns,
      chosen,
      are,
      rw e (rw (load_state-held f read) e'),
      mem (λ m. Mem m (n ∷ ns)) (All-Mem (n ∷ ns)),
      best,
    )
