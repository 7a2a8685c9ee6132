-- ===== src/Routes/Pool.antt =====
-- `HermesPool` of src/xpd_report_agent/hermes_pool.py. `digest` is the SHA-256 digest of a route key
-- and a node id, as a number: digests have one length, so they compare as their numbers.
use xpd_report_agent.Prelude.{
  any, ℕ, String, Bool, true, not, ◌&&◌, ◌||◌, Option, none, some, List, [], ◌∷◌, ltb, ◌==◌, str_eq,
  if◌then◌else◌, length, filter, min,
}
use xpd_report_agent.Prelude.Dict.{Dict, values}
use xpd_report_agent.Prelude.Result.{ok, err, guard, ◌>>=◌, ◌>>◌}
use xpd_report_agent.Routes.Store.{
  Disk, value_error, route_conflict, route_unavailable, configuration, Routed, State, RouteFile,
  load_state, node_id_for_scope, node_id_for_session, bind_scope,
}

pub record HermesNode : Type 0 where
  pub node_id : String
  pub origin : String

pub record HermesPool : Type 0 where
  pub nodes : List HermesNode
  pub scheduler_node_id : String
  pub allow_route_rebinding : Bool

-- `node_id in self._by_id`
abbrev pub is_node : String → HermesNode → Bool
is_node node_id n = str_eq n.node_id node_id

-- `len(self._by_id) == len(self.nodes)`
unfoldable pub are_unique : List HermesNode → Bool
are_unique [] = true
are_unique (n ∷ ns) = not (any (is_node n.node_id) ns) && are_unique ns

-- `scheduler_node_id or self.nodes[0].node_id`
abbrev pub scheduler_or : Option String → String → String
scheduler_or none first = first
scheduler_or (some s) first = if str_eq s "" then first else s

-- `HermesPool.__init__`
unfoldable pub make_pool : List HermesNode → Option String → Bool → Routed HermesPool
make_pool [] scheduler allow = err configuration
make_pool (n ∷ ns) scheduler allow = do
  guard (are_unique (n ∷ ns)) configuration
  let scheduler_id = scheduler_or scheduler n.node_id
  guard (any (is_node scheduler_id) (n ∷ ns) || allow) configuration
  ok (record { nodes = n ∷ ns; scheduler_node_id = scheduler_id; allow_route_rebinding = allow })

unfoldable pub multi_node : HermesPool → Bool
multi_node p = ltb 1 (length p.nodes)

unfoldable pub persistent_routing : HermesPool → Bool
persistent_routing p = multi_node p || p.allow_route_rebinding

-- `self.nodes[0]`; a pool has a node
unfoldable pub primary_node : HermesPool → Routed HermesNode
primary_node p = elim p.nodes [ [] ↦ err configuration | n ∷ _ ↦ ok n ]

unfoldable pub find_node : List HermesNode → String → Routed HermesNode
find_node [] node_id = err route_unavailable
find_node (n ∷ ns) node_id = if is_node node_id n then ok n else find_node ns node_id

unfoldable pub node : HermesPool → String → Routed HermesNode
node p node_id = find_node p.nodes node_id

-- `[self.node(node_id) for node_id in available_node_ids]`
unfoldable pub nodes_of : HermesPool → List String → Routed (List HermesNode)
nodes_of p [] = ok []
nodes_of p (id ∷ ids) = do n ← node p id; ns ← nodes_of p ids; ok (n ∷ ns)

unfoldable pub candidate_nodes : HermesPool → Option (List String) → Routed (List HermesNode)
candidate_nodes p none = ok p.nodes
candidate_nodes p (some ids) = nodes_of p ids

-- How many scopes are bound to the node.
unfoldable pub assignment_count : Dict String → HermesNode → ℕ
assignment_count bindings n = length (filter (λ id. str_eq id n.node_id) (values bindings))

-- `min` of the counts
unfoldable pub least : (HermesNode → ℕ) → HermesNode → List HermesNode → ℕ
least count n [] = count n
least count n (m ∷ ms) = min (count n) (least count m ms)

-- `max(candidates, key=digest)`: the first of the greatest
unfoldable pub greatest : (HermesNode → ℕ) → HermesNode → List HermesNode → HermesNode
greatest key best [] = best
greatest key best (n ∷ ns) = greatest key (if ltb (key best) (key n) then n else best) ns

-- `max` of an empty list raises a ValueError.
unfoldable pub pick : (HermesNode → ℕ) → List HermesNode → Routed HermesNode
pick key [] = err value_error
pick key (n ∷ ns) = ok (greatest key n ns)

unfoldable pub choose :
    (String → String → ℕ) → String → Dict String → List HermesNode → Routed HermesNode
choose digest route_key bindings [] = err route_unavailable
choose digest route_key bindings (n ∷ ns) =
    let count = assignment_count bindings in
    pick (λ m. digest route_key m.node_id) (filter (λ m. count m == least count n ns) (n ∷ ns))

-- A pool without candidates is refused before the store is read.
unfoldable pub read_bindings : List HermesNode → RouteFile → Routed State
read_bindings [] f = err route_unavailable
read_bindings (n ∷ ns) f = load_state f

-- `_select_node`
unfoldable pub select_node :
    (String → String → ℕ)
    → HermesPool
    → String
    → Option (List String)
    → RouteFile
    → Routed HermesNode
select_node digest p route_key available f = do
  candidates ← candidate_nodes p available
  s ← read_bindings candidates f
  choose digest route_key s.scopes candidates

abbrev pub bound_node : HermesPool → Option String → Routed (Option HermesNode)
bound_node p none = ok none
bound_node p (some node_id) = do n ← node p node_id; ok (some n)

unfoldable pub bound_node_for_scope : HermesPool → String → RouteFile → Routed (Option HermesNode)
bound_node_for_scope p scope f =
    if persistent_routing p
    then (do node_id ← node_id_for_scope scope f; bound_node p node_id)
    else (do n ← primary_node p; ok (some n))

unfoldable pub bound_node_for_session : HermesPool → String → RouteFile → Routed (Option HermesNode)
bound_node_for_session p session_id f =
    if persistent_routing p
    then (do node_id ← node_id_for_session session_id f; bound_node p node_id)
    else (do n ← primary_node p; ok (some n))

-- What other callers do to the file between two sections that hold the lock, and what the disk
-- does with the write of the file.
pub record World : Type 0 where
  pub between : ℕ → RouteFile → RouteFile
  pub disk : Disk

-- The `except` clause of `assign_scope`: the winner of a race is read again.
unfoldable pub settle :
    HermesPool
    → String
    → HermesNode
    → RouteFile
    → Routed RouteFile
    → RouteFile
    → Routed (HermesNode × RouteFile)
settle p scope n f (ok written) later = ok (n, written)
settle p scope n f (err route_conflict) later = do
  existing ← bound_node_for_scope p scope later
  elim existing [ none ↦ err route_conflict | some m ↦ ok (m, later) ]
settle p scope n f (err e) later = err e

-- `assign_scope` behind its first read
unfoldable pub assign_new :
    (String → String → ℕ)
    → World
    → HermesPool
    → String
    → Option (List String)
    → RouteFile
    → Option HermesNode
    → Routed (HermesNode × RouteFile)
assign_new digest w p scope available f (some n) = ok (n, f)
assign_new digest w p scope available f none = do
  let read = w.between 0 f
  n ← select_node digest p scope available read
  let now = w.between 1 read
  (if persistent_routing p
      then settle p scope n now (bind_scope w.disk scope n.node_id now) (w.between 2 now)
      else ok (n, now))

-- `assign_scope`: the node, and the file when the call returns
unfoldable pub assign_scope :
    (String → String → ℕ)
    → World
    → HermesPool
    → String
    → Option (List String)
    → RouteFile
    → Routed (HermesNode × RouteFile)
assign_scope digest w p scope available f = do
  existing ← bound_node_for_scope p scope f
  assign_new digest w p scope available f existing
