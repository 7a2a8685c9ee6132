-- ===== src/Routes/Binding.antt =====
-- What the store of src/xpd_report_agent/hermes_pool.py keeps: the sessions of an owner are bound to
-- the owner's node, and a binding changes by rebinding alone.
use mathlib.Core.Path.{subst}
use xpd_report_agent.Prelude.{
  String, ◌≡◌, refl, inl, inr, Bool, true, false, not, some, [], ◌∷◌, arith, str_eq, eq_iff,
  Bool-cases,
}
use xpd_report_agent.Prelude.Dict.{Dict, lookup, insert, lookup-insert}
use xpd_report_agent.Prelude.Patterns.{owner_scope_from_session_id}
use xpd_report_agent.Prelude.Result.{ok, guard, ◌>>◌}
use xpd_report_agent.Routes.Store.{
  RouteError, route_conflict, Routed, State, differs, scope_bound, session_bound, is_of_scope,
  move_sessions, matches, scope_rebound,
}

-- The bound node of a session is that of its owner, and its name is not empty.
abbrev pub IsSticky : State → Type 0
IsSticky s =
    (session_id scope v : String)
    → owner_scope_from_session_id session_id ≡ some scope
    → lookup session_id s.sessions ≡ some v
    → (str_eq v "" ≡ false) × (lookup scope s.scopes ≡ some v)

-- A binding of an owner that a reader sees stays.
abbrev pub Stays : State → State → Type 0
Stays s s' =
    (scope v : String)
    → lookup scope s.scopes ≡ some v
    → str_eq v "" ≡ false
    → lookup scope s'.scopes ≡ some v

guard-true :
    (b : Bool) (e : RouteError) {A : Type 0} (m : Routed A) {a : A}
    → (guard b e >> m) ≡ ok a
    → (b ≡ true) × (m ≡ ok a)
guard-true true e m h = (refl, h)
guard-true false e m h = cc

pub ok_inj : {A : Type 0} {a b : A} → ◌≡◌ {A = Routed A} (ok a) (ok b) → a ≡ b
ok_inj h = cc

agrees-insert :
    (scope node_id : String) (s : State)
    → not (differs (lookup scope s.scopes) node_id) ≡ true
    → (k v : String) → lookup k s.scopes ≡ some v
    → str_eq v "" ≡ false
    → lookup k (insert scope node_id s.scopes) ≡ some v
agrees-insert scope node_id s free k v e ne = elim (Bool-cases (str_eq scope k)) [
  | inr b ↦ rw (lookup-insert scope k node_id s.scopes) (rw b e)
  | inl b ↦
      let same : lookup scope s.scopes ≡ some v = rw ((eq_iff scope k).0 b) e in
      rw (lookup-insert scope k node_id s.scopes) (rw b (ground (arith, eq_iff v node_id)))
]

pub scope_bound-Stays :
    (scope node_id : String) (s : State) {s' : State}
    → scope_bound scope node_id s ≡ ok s'
    → Stays s s'
unfolding scope_bound
scope_bound-Stays scope node_id s h =
    let (free, same) =
      guard-true (not (differs (lookup scope s.scopes) node_id)) route_conflict _ h in
    subst (Stays s) (ok_inj same) (agrees-insert scope node_id s free)

pub scope_bound-IsSticky :
    (scope node_id : String) (s : State) {s' : State}
    → scope_bound scope node_id s ≡ ok s'
    → IsSticky s
    → IsSticky s'
unfolding scope_bound
scope_bound-IsSticky scope node_id s h sticky =
    let (free, same) =
      guard-true (not (differs (lookup scope s.scopes) node_id)) route_conflict _ h in
    subst IsSticky (ok_inj same) (λ session_id k v owner e.
      let (ne, bound) = sticky session_id k v owner e in
      (ne, agrees-insert scope node_id s free k v bound ne))

pub session_bound-Stays :
    (scope session_id node_id : String) (s : State) {s' : State}
    → session_bound scope session_id node_id s ≡ ok s'
    → Stays s s'
unfolding session_bound
session_bound-Stays scope session_id node_id s h =
    let (free, h1) =
      guard-true (not (differs (lookup scope s.scopes) node_id)) route_conflict _ h in
    let (free', same) =
      guard-true (not (differs (lookup session_id s.sessions) node_id)) route_conflict _ h1 in
    subst (Stays s) (ok_inj same) (agrees-insert scope node_id s free)

pub session_bound-IsSticky :
    (scope session_id node_id : String) (s : State) {s' : State}
    → session_bound scope session_id node_id s ≡ ok s'
    → owner_scope_from_session_id session_id ≡ some scope
    → str_eq node_id "" ≡ false
    → IsSticky s
    → IsSticky s'
unfolding session_bound
session_bound-IsSticky scope session_id node_id s h owned full sticky =
    let (free, h1) =
      guard-true (not (differs (lookup scope s.scopes) node_id)) route_conflict _ h in
    let (free', same) =
      guard-true (not (differs (lookup session_id s.sessions) node_id)) route_conflict _ h1 in
    subst IsSticky (ok_inj same) (λ j k v owner e. elim (Bool-cases (str_eq session_id j)) [
      | inr b ↦
          let q = rw (lookup-insert session_id j node_id s.sessions) at e in
          let (ne, bound) = sticky j k v owner (rw b at q) in
          (ne, agrees-insert scope node_id s free k v bound ne)
      | inl b ↦
          let q = rw (lookup-insert session_id j node_id s.sessions) at e in
          let q' = rw b at q in
          let p = (eq_iff session_id j).0 b in
          let kk : scope ≡ k = cc in
          let vv : node_id ≡ v = cc in
          (ground arith, ground (arith, lookup-insert scope k node_id s.scopes, eq_iff scope k))
    ])

lookup-move_sessions :
    (scope node_id j : String) (d : Dict String)
    → is_of_scope scope j ≡ false
    → lookup j (move_sessions scope node_id d) ≡ lookup j d
unfolding lookup move_sessions
lookup-move_sessions scope node_id j [] h = refl
lookup-move_sessions scope node_id j ((k, old) ∷ d) h =
    ground (arith, eq_iff k j, lookup-move_sessions scope node_id j d)

lookup-move_sessions_own :
    (scope node_id j : String) (d : Dict String) {v : String}
    → is_of_scope scope j ≡ true
    → lookup j (move_sessions scope node_id d) ≡ some v
    → v ≡ node_id
unfolding lookup move_sessions
lookup-move_sessions_own scope node_id j [] h e = cc
lookup-move_sessions_own scope node_id j ((k, old) ∷ d) h e = elim (Bool-cases (str_eq k j)) [
  | inl b ↦ ground (arith, eq_iff k j)
  | inr b ↦ lookup-move_sessions_own scope node_id j d h (ground arith)
]

pub scope_rebound-IsSticky :
    (scope expected replacement : String) (s : State)
    → str_eq replacement "" ≡ false
    → IsSticky s
    → IsSticky (scope_rebound scope expected replacement s).0
unfolding scope_rebound
scope_rebound-IsSticky scope expected replacement s full sticky =
    elim (Bool-cases (matches (lookup scope s.scopes) expected)) [
      | inr b ↦ rw b sticky
      | inl b ↦ rw b (λ j k v owner e. elim (Bool-cases (is_of_scope scope j)) [
        | inl o ↦
            let vv = lookup-move_sessions_own scope replacement j s.sessions o e in
            let kk : k ≡ scope = (let o' = rw (owner, is_of_scope) at o in (eq_iff k scope).0 o') in
            (
              ground arith,
              ground (arith, lookup-insert scope k replacement s.scopes, eq_iff scope k),
            )
        | inr o ↦
            let e' = rw (lookup-move_sessions scope replacement j s.sessions o) at e in
            let (ne, bound) = sticky j k v owner e' in
            let o' = rw (owner, is_of_scope) at o in
            (
              ne,
              ground (
                arith,
                lookup-insert scope k replacement s.scopes,
                eq_iff scope k,
                eq_iff k scope,
              ),
            )
      ])
    ]
