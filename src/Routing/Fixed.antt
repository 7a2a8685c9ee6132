-- ===== src/Routing/Fixed.antt =====
-- Sessions in a pool that does not move routes (src/xpd_report_agent/api/hermes_routing.py).
use mathlib.Core.Path.{subst}
use xpd_report_agent.Prelude.{
  String, ◌≡◌, refl, sym, ap, ◌∙◌, inl, inr, Bool, true, false, not, Option, none, some, List, [],
  ◌∷◌, arith, str_eq, eq_iff, if◌then◌else◌, Bool-cases,
}
use xpd_report_agent.Prelude.Json.{Json, Fields}
use xpd_report_agent.Prelude.Patterns.{owner_scope_from_session_id}
use xpd_report_agent.Prelude.Result.{ok, err}
use xpd_report_agent.Routes.Store.{
  RouteFile, Routed, route_conflict, route_unavailable, value_error, os_error, late_os_error,
  configuration, node_id_for_session,
}
use xpd_report_agent.Routes.Pool.{HermesNode, HermesPool, node, find_node, persistent_routing}
use xpd_report_agent.Routing.Request.{ResolveError, session_id_from_request, is_scheduler_path}
use xpd_report_agent.Routing.Resolve.{
  Resolved, fails, Context, migrate, kept, keep_or_migrate, persisted_node_id, resolve_persisted,
  mismatch, or_scope, resolve_in, resolve_hermes_node,
}
use xpd_report_agent.Routing.Bound.{node_inj}

-- A node that comes out has the id.
abbrev Stays : String → Resolved → Type 0
Stays id r = (n : HermesNode) → r.outcome ≡ ok n → n.node_id ≡ id

fails-Stays : (id : String) (e : ResolveError) (f : RouteFile) → Stays id (fails e f)
fails-Stays id e f n h = absurd (ground arith)

find_node-id :
    (ns : List HermesNode) (id : String) {n : HermesNode} → find_node ns id ≡ ok n → n.node_id ≡ id
unfolding find_node
find_node-id [] id h = absurd (ground arith)
find_node-id (m ∷ ns) id {n} h = elim (Bool-cases (str_eq m.node_id id)) [
  | inl b ↦ ground (arith, (eq_iff m.node_id id).0 b, rw b at h)
  | inr b ↦ find_node-id ns id (rw b at h)
]

module _ (c : Context) (p : HermesPool) (fixed : p.allow_route_rebinding ≡ false)
    (session_id : Option String) (id : String) where
  migrate-Stays :
      (scope : Option String) (f : RouteFile) → Stays id (migrate c p session_id scope id f)
  unfolding migrate
  migrate-Stays none f = fails-Stays id _ f
  migrate-Stays (some scope) f = rw fixed (fails-Stays id _ f)

  kept-Stays :
      (scope : Option String) (f : RouteFile) (n : HermesNode) (o : Routed RouteFile)
      → n.node_id ≡ id
      → Stays id (kept c p session_id scope id f n o)
  unfolding kept
  kept-Stays scope f n (ok g) e = λ m h. sym (ap (λ t. t.node_id) (node_inj h)) ∙ e
  kept-Stays scope f n (err route_unavailable) e = migrate-Stays scope f
  kept-Stays scope f n (err route_conflict) e = fails-Stays id _ f
  kept-Stays scope f n (err value_error) e = fails-Stays id _ f
  kept-Stays scope f n (err os_error) e = fails-Stays id _ f
  kept-Stays scope f n (err (late_os_error g)) e = fails-Stays id _ g
  kept-Stays scope f n (err configuration) e = fails-Stays id _ f

  keep_or_migrate-Stays :
      (scope : Option String) (f : RouteFile) (r : Routed HermesNode)
      → r ≡ node p id
      → Stays id (keep_or_migrate c p session_id scope id f r)
  unfolding keep_or_migrate node
  keep_or_migrate-Stays scope f (ok n) e =
      kept-Stays scope (c.world.between 1 f) n _ (find_node-id p.nodes id (sym e))
  keep_or_migrate-Stays scope f (err e) _ = migrate-Stays scope f

if-Stays :
    (id : String) (b : Bool) (x y : Resolved)
    → Stays id x
    → Stays id y
    → Stays id (if b then x else y)
if-Stays id true x y s t = s
if-Stays id false x y s t = t

if_false-Stays :
    (id : String) (b : Bool) (x y : Resolved)
    → b ≡ false
    → Stays id y
    → Stays id (if b then x else y)
if_false-Stays id true x y h s = absurd (ground arith)
if_false-Stays id false x y h s = s

resolve_in-Stays :
    (c : Context) (p : HermesPool) (path : String) (scope : Option String) (session_id id : String)
    (f : RouteFile)
    → p.allow_route_rebinding ≡ false
    → persistent_routing p ≡ true
    → is_scheduler_path path ≡ false
    → node_id_for_session session_id f ≡ ok (some id)
    → Stays id (resolve_in c p path scope (some session_id) f)
unfolding resolve_in persisted_node_id resolve_persisted
resolve_in-Stays c p path scope session_id id f fixed persistent no_scheduler there =
    let owner = owner_scope_from_session_id session_id in
    if-Stays id (mismatch scope owner) _ _ (fails-Stays id _ f) (
      if_false-Stays id (is_scheduler_path path) _ _ no_scheduler (
        if_false-Stays id (not (persistent_routing p)) _ _ (rw persistent refl) (
          rw there (
            keep_or_migrate-Stays c p fixed (some session_id) id (or_scope owner scope) f
              (node p id) refl))))

-- In a pool of several nodes that does not move routes, a request of a session for which the store
-- names a node gets no other node, whatever the health of the nodes and other callers do.
pub resolve_hermes_node_fixed :
    (c : Context) (str_of : Json → String) (p : HermesPool) (path : String) (scope : Option String)
    (payload : Option Fields) (f : RouteFile) {session_id id : String} {n : HermesNode}
    → p.allow_route_rebinding ≡ false
    → persistent_routing p ≡ true
    → is_scheduler_path path ≡ false
    → session_id_from_request str_of path payload ≡ some session_id
    → node_id_for_session session_id f ≡ ok (some id)
    → (resolve_hermes_node c str_of (some p) path scope payload f).outcome ≡ ok n
    → n.node_id ≡ id
unfolding resolve_hermes_node
resolve_hermes_node_fixed c str_of p path scope payload f {session_id} {id} {n} fixed persistent
      no_scheduler read there =
    subst (λ o. (resolve_in c p path scope o f).outcome ≡ ok n → n.node_id ≡ id) (sym read)
      (resolve_in-Stays c p path scope session_id id f fixed persistent no_scheduler there n)
