-- ===== src/Routes/Early.antt =====
-- Writing calls of `HermesRouteStore` (src/xpd_report_agent/hermes_pool.py) whose disk does not fail
-- behind `os.replace`: their errors leave the file.
use xpd_report_agent.Prelude.{
  String, refl, ◌≢◌, inl, inr, Bool, true, false, Bool-cases, Option-cases,
}
use xpd_report_agent.Prelude.Dict.{lookup}
use xpd_report_agent.Prelude.Patterns.{owner_scope_from_session_id, is_owner_scope}
use xpd_report_agent.Prelude.Result.{ok, err, guard, ◌>>=◌}
use xpd_report_agent.Routes.Store.{
  Disk, takes, refuses, raises_late, value_error, os_error, route_conflict, route_unavailable,
  configuration, late_os_error, Routed, State, RouteFile, missing, broken, routes, differs,
  load_state, write_state, owner_of, scope_bound, bind_scope, session_bound, bind_session,
  scope_rebound, write_rebound, rebind_scope_if_matches, remove_session,
}

-- The call does not raise behind `os.replace`.
abbrev pub IsEarly : {A : Type 0} → Routed A → Type 0
IsEarly (ok a) = Unit
IsEarly (err (late_os_error g)) = ⊥
IsEarly (err value_error) = Unit
IsEarly (err os_error) = Unit
IsEarly (err route_conflict) = Unit
IsEarly (err route_unavailable) = Unit
IsEarly (err configuration) = Unit

bind-IsEarly :
    {A B : Type 0} (m : Routed A) (k : A → Routed B)
    → IsEarly m
    → ((a : A) → IsEarly (k a))
    → IsEarly (m >>= k)
bind-IsEarly (ok a) k h hs = hs a
bind-IsEarly (err value_error) k h hs = tt
bind-IsEarly (err os_error) k h hs = tt
bind-IsEarly (err route_conflict) k h hs = tt
bind-IsEarly (err route_unavailable) k h hs = tt
bind-IsEarly (err configuration) k h hs = tt
bind-IsEarly (err (late_os_error g)) k h hs = absurd h

load_state-IsEarly : (f : RouteFile) → IsEarly (load_state f)
unfolding load_state
load_state-IsEarly missing = tt
load_state-IsEarly broken = tt
load_state-IsEarly (routes s) = tt

valid-IsEarly : (b : Bool) → IsEarly (guard b value_error)
valid-IsEarly true = tt
valid-IsEarly false = tt

owner_of-IsEarly : (session_id : String) → IsEarly (owner_of session_id)
owner_of-IsEarly session_id = elim (Option-cases (owner_scope_from_session_id session_id)) [
  | inl e ↦ rw (e, owner_of) tt
  | inr (scope, e) ↦ rw (e, owner_of) tt
]

scope_bound-IsEarly : (scope node_id : String) (s : State) → IsEarly (scope_bound scope node_id s)
unfolding scope_bound
scope_bound-IsEarly scope node_id s = elim (Bool-cases (differs (lookup scope s.scopes) node_id)) [
  | inl b ↦ rw b tt
  | inr b ↦ rw b tt
]

session_bound-IsEarly :
    (scope session_id node_id : String) (s : State)
    → IsEarly (session_bound scope session_id node_id s)
unfolding session_bound
session_bound-IsEarly scope session_id node_id s =
    elim (Bool-cases (differs (lookup scope s.scopes) node_id)) [
      | inl b ↦ rw b tt
      | inr b ↦ rw b (elim (Bool-cases (differs (lookup session_id s.sessions) node_id)) [
        | inl b' ↦ rw b' tt
        | inr b' ↦ rw b' tt
      ])
    ]

write_state-IsEarly : (disk : Disk) (s : State) → disk ≢ raises_late → IsEarly (write_state disk s)
unfolding write_state
write_state-IsEarly takes s h = tt
write_state-IsEarly refuses s h = tt
write_state-IsEarly raises_late s h = absurd (h refl)

module _ (disk : Disk) (in_time : disk ≢ raises_late) (f : RouteFile) where
  pub bind_scope-IsEarly : (scope node_id : String) → IsEarly (bind_scope disk scope node_id f)
  unfolding bind_scope
  bind_scope-IsEarly scope node_id =
      bind-IsEarly (guard (is_owner_scope scope) value_error) _ (valid-IsEarly _) λ u.
        bind-IsEarly (load_state f) _ (load_state-IsEarly f) λ s.
          bind-IsEarly (scope_bound scope node_id s) _ (scope_bound-IsEarly scope node_id s)
            λ b. write_state-IsEarly disk b in_time

  pub bind_session-IsEarly :
      (session_id node_id : String) → IsEarly (bind_session disk session_id node_id f)
  unfolding bind_session
  bind_session-IsEarly session_id node_id =
      bind-IsEarly (owner_of session_id) _ (owner_of-IsEarly session_id) λ scope.
        bind-IsEarly (load_state f) _ (load_state-IsEarly f) λ s.
          bind-IsEarly (session_bound scope session_id node_id s) _
            (session_bound-IsEarly scope session_id node_id s)
            λ b. write_state-IsEarly disk b in_time

  pub rebind-IsEarly :
      (scope expected replacement : String)
      → IsEarly (rebind_scope_if_matches disk scope expected replacement f)
  unfolding rebind_scope_if_matches write_rebound
  rebind-IsEarly scope expected replacement =
      bind-IsEarly (guard (is_owner_scope scope) value_error) _ (valid-IsEarly _) λ u.
        bind-IsEarly (load_state f) _ (load_state-IsEarly f) λ s.
          let r = scope_rebound scope expected replacement s in
          bind-IsEarly (write_state disk r.0) (λ w. ok (r.1, w))
            (write_state-IsEarly disk r.0 in_time) λ w. tt

  pub remove_session-IsEarly : (session_id : String) → IsEarly (remove_session disk session_id f)
  unfolding remove_session
  remove_session-IsEarly session_id =
      bind-IsEarly (load_state f) _ (load_state-IsEarly f) λ s. write_state-IsEarly disk _ in_time
