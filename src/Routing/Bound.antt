-- ===== src/Routing/Bound.antt =====
-- Where `resolve_hermes_node` (src/xpd_report_agent/api/hermes_routing.py) leaves a session.
use mathlib.Core.Path.{subst}
use xpd_report_agent.Prelude.{
  List-cases, ℕ, String, ◌≡◌, refl, sym, ap, ◌∙◌, inl, inr, Bool, true, false, not, Option, none,
  some, arith, ◌==◌, str_eq, eq_iff, eq_refl, if◌then◌else◌, Bool-cases, Option-cases, length,
}
use xpd_report_agent.Prelude.Json.{Json, Fields}
use xpd_report_agent.Prelude.Dict.{Dict, lookup, insert, lookup-insert}
use xpd_report_agent.Prelude.Patterns.{owner_scope_from_session_id, is_owner_scope}
use xpd_report_agent.Prelude.Result.{Outcome, ok, err, guard, bind_elim}
use xpd_report_agent.Routes.Store.{
  State, RouteFile, Routed, owner_of, load_state, write_state, differs, session_bound, bind_session,
  route_conflict, route_unavailable, value_error, os_error, late_os_error, configuration, Disk,
  takes, refuses, raises_late, node_id_for_session,
}
use xpd_report_agent.Routes.Pool.{HermesNode, HermesPool, node, persistent_routing}
use xpd_report_agent.Routes.Sessions.{pool_bind_session}
use xpd_report_agent.Routes.Binding.{ok_inj}
use xpd_report_agent.Routes.Owners.{owner_scope-is_owner_scope}
use xpd_report_agent.Routing.Request.{ResolveError, session_id_from_request, is_scheduler_path}
use xpd_report_agent.Routing.Resolve.{
  resolve_hermes_node, or_scope, Resolved, fails, gives, Context, bind_if, bound_to, then_bind,
  migrate_to, migrate, kept, keep_or_migrate, assign_of, assign, persisted_node_id,
  resolve_persisted, mismatch, resolve_in, available_node_ids,
}

-- The file binds the session and its owner to the node.
abbrev pub IsBoundTo : String → HermesNode → RouteFile → Type 0
IsBoundTo session_id n f =
    (scope : String) × (s : State) × (owner_scope_from_session_id session_id ≡ some scope)
    × (load_state f ≡ ok s)
    × (lookup session_id s.sessions ≡ some n.node_id)
    × (lookup scope s.scopes ≡ some n.node_id)

owner_of-eq :
    (session_id : String) {scope : String}
    → owner_of session_id ≡ ok scope
    → owner_scope_from_session_id session_id ≡ some scope
owner_of-eq session_id h = elim (Option-cases (owner_scope_from_session_id session_id)) [
  | inl e ↦ absurd (ground (arith, rw (e, owner_of) at h))
  | inr (scope, e) ↦ ground (arith, e, rw (e, owner_of) at h)
]

write-load :
    (disk : Disk) (s : State) {g : RouteFile} → write_state disk s ≡ ok g → load_state g ≡ ok s
unfolding write_state load_state
write-load takes s h = ground arith
write-load refuses s h = absurd (ground arith)
write-load raises_late s h = absurd (ground arith)

lookup-insert_self {ℓ} :
    {V : Type ℓ} (k : String) (v : V) (d : Dict V) → lookup k (insert k v d) ≡ some v
lookup-insert_self k v d = lookup-insert k k v d ∙ rw (eq_refl k) refl

session_bound-binds :
    (scope session_id node_id : String) (s : State) {b : State}
    → session_bound scope session_id node_id s ≡ ok b
    → (lookup session_id b.sessions ≡ some node_id) × (lookup scope b.scopes ≡ some node_id)
unfolding session_bound
session_bound-binds scope session_id node_id s h =
    bind_elim (guard (not (differs (lookup scope s.scopes) node_id)) route_conflict) _ h λ _ _ h1.
      bind_elim (guard (not (differs (lookup session_id s.sessions) node_id)) route_conflict) _ h1
        λ _ _ h2. (
          ap (λ t. lookup session_id t.sessions) (sym (ok_inj h2))
              ∙ lookup-insert_self session_id node_id s.sessions,
          ap (λ t. lookup scope t.scopes) (sym (ok_inj h2))
              ∙ lookup-insert_self scope node_id s.scopes,
        )

bind_session-IsBoundTo :
    (disk : Disk) (session_id : String) (n : HermesNode) (f : RouteFile) {g : RouteFile}
    → bind_session disk session_id n.node_id f ≡ ok g
    → IsBoundTo session_id n g
unfolding bind_session
bind_session-IsBoundTo disk session_id n f h = bind_elim (owner_of session_id) _ h λ scope e h1.
    bind_elim (load_state f) _ h1 λ s e2 h2.
      bind_elim (session_bound scope session_id n.node_id s) _ h2 λ b e3 h3.
        let (to, of) = session_bound-binds scope session_id n.node_id s e3 in
        (scope, b, owner_of-eq session_id e, write-load disk b h3, to, of)

module _ (disk : Disk) (p : HermesPool) (persistent : persistent_routing p ≡ true) where
  bind_if-IsBoundTo :
      (session_id : String) (n : HermesNode) (f : RouteFile) {g : RouteFile}
      → bind_if disk p (some session_id) n f ≡ ok g
      → IsBoundTo session_id n g
  unfolding pool_bind_session
  bind_if-IsBoundTo session_id n f h =
      bind_elim (pool_bind_session disk p session_id n.node_id f) _ h λ r e h1.
        bind_elim (node p n.node_id) _ e λ m _ h2.
          bind_elim
            (if persistent_routing p then bind_session disk session_id n.node_id f else ok f) _ h2
            λ written e3 h3.
              subst (IsBoundTo session_id n) (ap (λ x. x.1) (ok_inj h3) ∙ ok_inj h1)
                (bind_session-IsBoundTo disk session_id n f (rw persistent at e3))

pub node_inj : {n m : HermesNode} → ◌≡◌ {A = Outcome ResolveError HermesNode} (ok n) (ok m) → n ≡ m
node_inj h = ground (arith, h)

-- A node that comes out is one that the file binds the session to.
abbrev Sound : String → Resolved → Type 0
Sound session_id r = (n : HermesNode) → r.outcome ≡ ok n → IsBoundTo session_id n r.file

fails-Sound :
    (session_id : String) (e : ResolveError) (f : RouteFile) → Sound session_id (fails e f)
fails-Sound session_id e f n h = absurd (ground arith)

gives-Sound :
    (session_id : String) (n : HermesNode) (f : RouteFile)
    → IsBoundTo session_id n f
    → Sound session_id (gives n f)
gives-Sound session_id n f b m h = subst (λ t. IsBoundTo session_id t f) (node_inj h) b

module _ (c : Context) (p : HermesPool) (persistent : persistent_routing p ≡ true)
    (session_id : String) where
  bound_to-Sound :
      (f : RouteFile) (n : HermesNode) (o : Routed RouteFile)
      → o ≡ bind_if c.world.disk p (some session_id) n f
      → Sound session_id (bound_to f n o)
  unfolding bound_to
  bound_to-Sound f n (ok g) h =
      gives-Sound session_id n g
        (bind_if-IsBoundTo c.world.disk p persistent session_id n f (sym h))
  bound_to-Sound f n (err e) h = fails-Sound session_id _ _

  then_bind-Sound :
      (k : ℕ) (f : RouteFile) (r : Routed (HermesNode × RouteFile))
      → Sound session_id (then_bind c k p (some session_id) f r)
  then_bind-Sound k f (ok (n, g)) = bound_to-Sound (c.world.between k g) n _ refl
  then_bind-Sound k f (err e) = fails-Sound session_id _ _

  migrate_to-Sound :
      (scope id : String) (f : RouteFile) (r : Routed HermesNode)
      → Sound session_id (migrate_to c p (some session_id) scope id f r)
  unfolding migrate_to
  migrate_to-Sound scope id f (err e) = fails-Sound session_id _ f
  migrate_to-Sound scope id f (ok n) = then_bind-Sound 4 (c.world.between 3 f) _

  migrate-Sound :
      (scope : Option String) (id : String) (f : RouteFile)
      → Sound session_id (migrate c p (some session_id) scope id f)
  unfolding migrate
  migrate-Sound none id f = fails-Sound session_id _ f
  migrate-Sound (some scope) id f = elim (Bool-cases (not p.allow_route_rebinding)) [
    | inl b ↦ rw b (fails-Sound session_id _ f)
    | inr b ↦ rw b (elim (Bool-cases (length (available_node_ids c.answer p) == 0)) [
      | inl e ↦ rw e (fails-Sound session_id _ f)
      | inr e ↦ rw e (migrate_to-Sound scope id (c.world.between 2 f) _)
    ])
  ]

  kept-Sound :
      (scope : Option String) (id : String) (f : RouteFile) (n : HermesNode) (o : Routed RouteFile)
      → o ≡ bind_if c.world.disk p (some session_id) n f
      → Sound session_id (kept c p (some session_id) scope id f n o)
  unfolding kept
  kept-Sound scope id f n (ok g) h =
      gives-Sound session_id n g
        (bind_if-IsBoundTo c.world.disk p persistent session_id n f (sym h))
  kept-Sound scope id f n (err route_unavailable) h = migrate-Sound scope id f
  kept-Sound scope id f n (err route_conflict) h = fails-Sound session_id _ f
  kept-Sound scope id f n (err value_error) h = fails-Sound session_id _ f
  kept-Sound scope id f n (err os_error) h = fails-Sound session_id _ f
  kept-Sound scope id f n (err (late_os_error g)) h = fails-Sound session_id _ g
  kept-Sound scope id f n (err configuration) h = fails-Sound session_id _ f

  keep_or_migrate-Sound :
      (scope : Option String) (id : String) (f : RouteFile) (r : Routed HermesNode)
      → Sound session_id (keep_or_migrate c p (some session_id) scope id f r)
  unfolding keep_or_migrate
  keep_or_migrate-Sound scope id f (ok n) = kept-Sound scope id (c.world.between 1 f) n _ refl
  keep_or_migrate-Sound scope id f (err e) = migrate-Sound scope id f

  assign-Sound :
      (scope : String) (f : RouteFile)
      → str_eq scope "" ≡ false
      → Sound session_id (assign c p (some session_id) (some scope) f)
  unfolding assign assign_of
  assign-Sound scope f ne = rw ne (elim (List-cases (available_node_ids c.answer p)) [
    | inl e ↦ rw e (fails-Sound session_id _ f)
    | inr (id, ids, e) ↦ rw e (then_bind-Sound 5 (c.world.between 1 f) _)
  ])

  resolve_persisted-Sound :
      (scope : Option String) (f : RouteFile) (o : Routed (Option String))
      → (o ≡ ok none → (owner : String) × (scope ≡ some owner) × (str_eq owner "" ≡ false))
      → Sound session_id (resolve_persisted c p (some session_id) scope f o)
  unfolding resolve_persisted
  resolve_persisted-Sound scope f (err e) h = fails-Sound session_id _ f
  resolve_persisted-Sound scope f (ok (some id)) h = keep_or_migrate-Sound scope id f _
  resolve_persisted-Sound scope f (ok none) h =
      let (owner, e, ne) = h refl in
      subst (λ t. Sound session_id (assign c p (some session_id) t f)) (sym e)
        (assign-Sound owner f ne)

owner-nonempty : (owner : String) → is_owner_scope owner ≡ true → str_eq owner "" ≡ false
unfolding is_owner_scope
owner-nonempty owner h = elim (Bool-cases (str_eq owner "")) [
  | inl b ↦ absurd (ground (arith, subst (λ t. is_owner_scope t ≡ true) ((eq_iff owner "").0 b) h))
  | inr b ↦ b
]

route_scope-of_read :
    (session_id : String) (scope : Option String) (f : RouteFile)
    → node_id_for_session session_id f ≡ ok none
    → (owner : String) × (or_scope (owner_scope_from_session_id session_id) scope ≡ some owner)
      × (str_eq owner "" ≡ false)
unfolding node_id_for_session
route_scope-of_read session_id scope f h = bind_elim (owner_of session_id) _ h λ owner e _.
    let owned = owner_of-eq session_id e in
    (
      owner,
      ap (λ t. or_scope t scope) owned,
      owner-nonempty owner (owner_scope-is_owner_scope session_id owned),
    )

if_false-Sound :
    (session_id : String) (b : Bool) (x y : Resolved)
    → b ≡ false
    → Sound session_id y
    → Sound session_id (if b then x else y)
if_false-Sound session_id true x y h s = absurd (ground arith)
if_false-Sound session_id false x y h s = s

if-Sound :
    (session_id : String) (b : Bool) (x y : Resolved)
    → Sound session_id x
    → Sound session_id y
    → Sound session_id (if b then x else y)
if-Sound session_id true x y s t = s
if-Sound session_id false x y s t = t

resolve_in-Sound :
    (c : Context) (p : HermesPool) (path : String) (scope : Option String) (session_id : String)
    (f : RouteFile)
    → persistent_routing p ≡ true
    → is_scheduler_path path ≡ false
    → Sound session_id (resolve_in c p path scope (some session_id) f)
unfolding resolve_in persisted_node_id
resolve_in-Sound c p path scope session_id f persistent no_scheduler =
    let owner = owner_scope_from_session_id session_id in
    if-Sound session_id (mismatch scope owner) _ _ (fails-Sound session_id _ f) (
      if_false-Sound session_id (is_scheduler_path path) _ _ no_scheduler (
        if_false-Sound session_id (not (persistent_routing p)) _ _ (rw persistent refl) (
          resolve_persisted-Sound c p persistent session_id (or_scope owner scope) f
            (node_id_for_session session_id f) (route_scope-of_read session_id scope f))))

-- A request of a session that gets a node leaves the session and its owner bound to this node, if
-- the pool keeps durable routes and the path is not the scheduler's. This holds on every way to a
-- node: the persisted one, a move to another, and a first assignment, whatever other callers do to
-- the route file between the calls of the store, also during the health probes.
pub resolve_hermes_node-IsBoundTo :
    (c : Context) (str_of : Json → String) (p : HermesPool) (path : String) (scope : Option String)
    (payload : Option Fields) (f : RouteFile) {session_id : String} {n : HermesNode}
    → persistent_routing p ≡ true
    → is_scheduler_path path ≡ false
    → session_id_from_request str_of path payload ≡ some session_id
    → (resolve_hermes_node c str_of (some p) path scope payload f).outcome ≡ ok n
    → IsBoundTo session_id n (resolve_hermes_node c str_of (some p) path scope payload f).file
unfolding resolve_hermes_node
resolve_hermes_node-IsBoundTo c str_of p path scope payload f {session_id} {n} persistent
      no_scheduler read =
    subst
      (λ o.
        (resolve_in c p path scope o f).outcome ≡ ok n
        → IsBoundTo session_id n (resolve_in c p path scope o f).file)
      (sym read) (resolve_in-Sound c p path scope session_id f persistent no_scheduler n)
