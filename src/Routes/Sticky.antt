-- ===== src/Routes/Sticky.antt =====
-- Single writing calls of `HermesRouteStore` (src/xpd_report_agent/hermes_pool.py) on a file whose
-- sessions follow their owners.
use mathlib.Core.Path.{subst}
use xpd_report_agent.Prelude.{
  String, ◌≡◌, inl, inr, false, Option, some, arith, str_eq, Bool-cases, Option-cases,
}
use xpd_report_agent.Prelude.Dict.{lookup, remove, lookup-remove}
use xpd_report_agent.Prelude.Patterns.{owner_scope_from_session_id, is_owner_scope}
use xpd_report_agent.Prelude.Result.{ok, guard, bind_elim}
use xpd_report_agent.Routes.Binding.{
  IsSticky, ok_inj, scope_bound-IsSticky, session_bound-IsSticky, scope_rebound-IsSticky,
}
use xpd_report_agent.Routes.Store.{
  Disk, takes, refuses, raises_late, bind_session, rebind_scope_if_matches, value_error, Routed,
  State, RouteFile, missing, broken, routes, empty_state, load_state, write_state, owner_of,
  bind_scope, bind_session, scope_rebound, write_rebound, rebind_scope_if_matches, remove_session,
}

abbrev pub FileIsSticky : RouteFile → Type 0
FileIsSticky missing = Unit
FileIsSticky broken = Unit
FileIsSticky (routes s) = IsSticky s

pub loaded-IsSticky :
    (f : RouteFile) {s : State} → load_state f ≡ ok s → FileIsSticky f → IsSticky s
unfolding load_state empty_state lookup
loaded-IsSticky missing h st = subst IsSticky (ok_inj h) (λ j k v owner e. cc)
loaded-IsSticky broken h st = cc
loaded-IsSticky (routes s) h st = subst IsSticky (ok_inj h) st

pub written-IsSticky :
    (disk : Disk) (s : State) {f : RouteFile}
    → write_state disk s ≡ ok f
    → IsSticky s
    → FileIsSticky f
unfolding write_state
written-IsSticky takes s h st = subst FileIsSticky (ok_inj h) st
written-IsSticky refuses s h st = cc
written-IsSticky raises_late s h st = cc

owner_of-eq :
    (session_id scope : String)
    → owner_of session_id ≡ ok scope
    → owner_scope_from_session_id session_id ≡ some scope
owner_of-eq session_id scope h = elim (Option-cases (owner_scope_from_session_id session_id)) [
  | inl e ↦ absurd (let q = rw (e, owner_of) at h in ground arith)
  | inr (t, e) ↦ let q = rw (e, owner_of) at h in cc
]

pub remove-IsSticky :
    (session_id : String) (s : State)
    → IsSticky s
    → IsSticky (record s { sessions = remove session_id s.sessions })
remove-IsSticky session_id s st j k v owner e = elim (Bool-cases (str_eq session_id j)) [
  | inl b ↦ absurd (
      let q = rw (lookup-remove session_id j s.sessions) at e in let q' = rw b at q in ground arith)
  | inr b ↦ let q = rw (lookup-remove session_id j s.sessions) at e in st j k v owner (rw b at q)
]

written_inj :
    {o o' : Option String} {f g : RouteFile}
    → ◌≡◌ {A = Routed (Option String × RouteFile)} (ok (o, f)) (ok (o', g))
    → f ≡ g
written_inj h = cc

pub write_rebound-IsSticky :
    (disk : Disk) (r : State × Option String) {o : Option String} {g : RouteFile}
    → write_rebound disk r ≡ ok (o, g)
    → IsSticky r.0
    → FileIsSticky g
unfolding write_rebound
write_rebound-IsSticky disk (s, current) h sticky =
    bind_elim (write_state disk s) _ h
      (λ w b h1. subst FileIsSticky (written_inj h1) (written-IsSticky disk s b sticky))

module _ (disk : Disk) (f : RouteFile) {g : RouteFile} (sticky : FileIsSticky f) where
  pub bind_scope-IsSticky :
      (scope node_id : String) → bind_scope disk scope node_id f ≡ ok g → FileIsSticky g
  unfolding bind_scope
  bind_scope-IsSticky scope node_id h = bind_elim _ _ h (λ u e h1. bind_elim _ _ h1 (λ s l h2.
      bind_elim _ _ h2 (λ s' b h3.
        written-IsSticky disk s' h3
          (scope_bound-IsSticky scope node_id s b (loaded-IsSticky f l sticky)))))

  pub bind_session-IsSticky :
      (session_id node_id : String)
      → str_eq node_id "" ≡ false
      → bind_session disk session_id node_id f ≡ ok g
      → FileIsSticky g
  unfolding bind_session
  bind_session-IsSticky session_id node_id full h = bind_elim _ _ h (λ scope o h1.
      bind_elim _ _ h1 (λ s l h2. bind_elim _ _ h2 (λ s' b h3. written-IsSticky disk s' h3 (
        session_bound-IsSticky scope session_id node_id s b (owner_of-eq session_id scope o) full
          (loaded-IsSticky f l sticky)))))

  pub rebind-IsSticky :
      (scope expected replacement : String) {o : Option String}
      → str_eq replacement "" ≡ false
      → rebind_scope_if_matches disk scope expected replacement f ≡ ok (o, g)
      → FileIsSticky g
  unfolding rebind_scope_if_matches
  rebind-IsSticky scope expected replacement full h =
      bind_elim (guard (is_owner_scope scope) value_error) _ h (λ u e h1.
        bind_elim _ _ h1 (λ s l h2.
          write_rebound-IsSticky disk (scope_rebound scope expected replacement s) h2 (
            scope_rebound-IsSticky scope expected replacement s full (loaded-IsSticky f l sticky))))

  pub remove_session-IsSticky :
      (session_id : String) → remove_session disk session_id f ≡ ok g → FileIsSticky g
  unfolding remove_session
  remove_session-IsSticky session_id h = bind_elim _ _ h (λ s l h1.
      written-IsSticky disk _ h1 (remove-IsSticky session_id s (loaded-IsSticky f l sticky)))
