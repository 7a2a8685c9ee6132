-- ===== src/Routes/Calls.antt =====
-- Sequences of writing calls of `HermesRouteStore` (src/xpd_report_agent/hermes_pool.py), with a disk
-- that may fail before the file is replaced and after it.
use mathlib.Core.Path.{subst}
use xpd_report_agent.Prelude.{
  All, String, ◌≡◌, refl, sym, false, Option, none, some, List, [], ◌∷◌, arith, str_eq, ◌≢◌,
}
use xpd_report_agent.Prelude.Patterns.{is_owner_scope}
use xpd_report_agent.Prelude.Result.{ok, err, guard, ◌>>=◌}
use xpd_report_agent.Routes.Early.{
  IsEarly, bind_scope-IsEarly, bind_session-IsEarly, rebind-IsEarly, remove_session-IsEarly,
}
use xpd_report_agent.Routes.Sticky.{
  FileIsSticky, bind_scope-IsSticky, bind_session-IsSticky, rebind-IsSticky,
  remove_session-IsSticky,
}
use xpd_report_agent.Routes.Store.{
  os_error, route_conflict, route_unavailable, configuration, late_os_error, route_conflict,
  late_os_error, Disk, takes, refuses, raises_late, left_by, bind_session, rebind_scope_if_matches,
  scope_bound, session_bound, value_error, Routed, State, RouteFile, missing, broken, routes,
  empty_state, load_state, write_state, owner_of, bind_scope, bind_session, write_rebound,
  rebind_scope_if_matches, remove_session,
}

pub data Call : Type 0 where
  call_bind_scope : String → String → Call
  call_bind_session : String → String → Call
  call_rebind : String → String → String → Call
  call_remove_session : String → Call

abbrev pub or_kept : RouteFile → Routed RouteFile → RouteFile
or_kept f (err e) = left_by e f
or_kept f (ok written) = written

abbrev pub written_of : Routed (Option String × RouteFile) → Routed RouteFile
written_of (err e) = err e
written_of (ok r) = ok r.1

-- The file after a call. A call that raises leaves it, or the file that it has just written.
unfoldable pub perform : Disk × Call → RouteFile → RouteFile
perform (disk, call_bind_scope scope node_id) f = or_kept f (bind_scope disk scope node_id f)
perform (disk, call_bind_session session_id node_id) f =
    or_kept f (bind_session disk session_id node_id f)
perform (disk, call_rebind scope expected replacement) f =
    or_kept f (written_of (rebind_scope_if_matches disk scope expected replacement f))
perform (disk, call_remove_session session_id) f = or_kept f (remove_session disk session_id f)

unfoldable pub perform_all : List (Disk × Call) → RouteFile → RouteFile
perform_all [] f = f
perform_all (c ∷ cs) f = perform_all cs (perform c f)

-- The state that the file holds, if it can be read.
abbrev pub held : RouteFile → Option State
held missing = some empty_state
held broken = none
held (routes s) = some s

-- The node name that a call binds is not empty.
abbrev pub Names : Disk × Call → Type 0
Names (disk, call_bind_scope scope node_id) = str_eq node_id "" ≡ false
Names (disk, call_bind_session session_id node_id) = str_eq node_id "" ≡ false
Names (disk, call_rebind scope expected replacement) = str_eq replacement "" ≡ false
Names (disk, call_remove_session session_id) = Unit

-- What becomes of a chain of calls depends only on what becomes of its last part.
after_bind :
    {A B : Type 0} {C : Type 0} (h : Routed B → C) (m : Routed A) (k k' : A → Routed B)
    → ((a : A) → h (k a) ≡ h (k' a))
    → h (m >>= k) ≡ h (m >>= k')
after_bind h (err e) k k' same = refl
after_bind h (ok a) k k' same = same a

written_of-ok :
    (r : Routed (Option String × RouteFile)) {g : RouteFile}
    → written_of r ≡ ok g
    → (o : Option String) × (r ≡ ok (o, g))
written_of-ok (err e) h = cc
written_of-ok (ok (o, f)) h = (o, cc)

-- A write that raises late leaves the file that the disk would have taken.
perform_late : (c : Call) (f : RouteFile) → perform (raises_late, c) f ≡ perform (takes, c) f
unfolding perform bind_scope bind_session rebind_scope_if_matches write_rebound remove_session
    write_state
perform_late (call_bind_scope scope node_id) f =
    after_bind (or_kept f) (guard (is_owner_scope scope) value_error) _ _ λ u.
      after_bind (or_kept f) (load_state f) _ _
        λ s. after_bind (or_kept f) (scope_bound scope node_id s) _ _ λ b. refl
perform_late (call_bind_session session_id node_id) f =
    after_bind (or_kept f) (owner_of session_id) _ _ λ scope.
      after_bind (or_kept f) (load_state f) _ _
        λ s. after_bind (or_kept f) (session_bound scope session_id node_id s) _ _ λ b. refl
perform_late (call_rebind scope expected replacement) f =
    after_bind (λ r. or_kept f (written_of r)) (guard (is_owner_scope scope) value_error) _ _
      λ u. after_bind (λ r. or_kept f (written_of r)) (load_state f) _ _ λ s. refl
perform_late (call_remove_session session_id) f =
    after_bind (or_kept f) (load_state f) _ _ λ s. refl

or_kept-IsSticky :
    (f : RouteFile) (r : Routed RouteFile)
    → FileIsSticky f
    → IsEarly r
    → ((g : RouteFile) → r ≡ ok g → FileIsSticky g)
    → FileIsSticky (or_kept f r)
or_kept-IsSticky f (ok g) st early go = go g refl
or_kept-IsSticky f (err value_error) st early go = st
or_kept-IsSticky f (err os_error) st early go = st
or_kept-IsSticky f (err route_conflict) st early go = st
or_kept-IsSticky f (err route_unavailable) st early go = st
or_kept-IsSticky f (err configuration) st early go = st
or_kept-IsSticky f (err (late_os_error g)) st early go = absurd early

written_of-IsEarly : (r : Routed (Option String × RouteFile)) → IsEarly r → IsEarly (written_of r)
written_of-IsEarly (ok r) h = tt
written_of-IsEarly (err value_error) h = tt
written_of-IsEarly (err os_error) h = tt
written_of-IsEarly (err route_conflict) h = tt
written_of-IsEarly (err route_unavailable) h = tt
written_of-IsEarly (err configuration) h = tt
written_of-IsEarly (err (late_os_error g)) h = absurd h

perform_early-IsSticky :
    (disk : Disk) (c : Call) (f : RouteFile)
    → disk ≢ raises_late
    → Names (disk, c)
    → FileIsSticky f
    → FileIsSticky (perform (disk, c) f)
unfolding perform
perform_early-IsSticky disk (call_bind_scope scope node_id) f in_time full st =
    or_kept-IsSticky f (bind_scope disk scope node_id f) st
      (bind_scope-IsEarly disk in_time f scope node_id)
      (λ g. bind_scope-IsSticky disk f st scope node_id)
perform_early-IsSticky disk (call_bind_session session_id node_id) f in_time full st =
    or_kept-IsSticky f (bind_session disk session_id node_id f) st
      (bind_session-IsEarly disk in_time f session_id node_id)
      (λ g. bind_session-IsSticky disk f st session_id node_id full)
perform_early-IsSticky disk (call_rebind scope expected replacement) f in_time full st =
    let r = rebind_scope_if_matches disk scope expected replacement f in
    or_kept-IsSticky f (written_of r) st
      (written_of-IsEarly r (rebind-IsEarly disk in_time f scope expected replacement))
      (λ g h. rebind-IsSticky disk f st scope expected replacement full (written_of-ok r h).1)
perform_early-IsSticky disk (call_remove_session session_id) f in_time full st =
    or_kept-IsSticky f (remove_session disk session_id f) st
      (remove_session-IsEarly disk in_time f session_id)
      (λ g. remove_session-IsSticky disk f st session_id)

named_late : (c : Call) → Names (raises_late, c) → Names (takes, c)
named_late (call_bind_scope scope node_id) h = h
named_late (call_bind_session session_id node_id) h = h
named_late (call_rebind scope expected replacement) h = h
named_late (call_remove_session session_id) h = h

takes_in_time : takes ≢ raises_late
takes_in_time h = ground arith

refuses_in_time : refuses ≢ raises_late
refuses_in_time h = ground arith

perform-IsSticky :
    (disk : Disk) (c : Call) (f : RouteFile)
    → Names (disk, c)
    → FileIsSticky f
    → FileIsSticky (perform (disk, c) f)
perform-IsSticky takes c f full st = perform_early-IsSticky takes c f takes_in_time full st
perform-IsSticky refuses c f full st = perform_early-IsSticky refuses c f refuses_in_time full st
perform-IsSticky raises_late c f full st =
    subst FileIsSticky (sym (perform_late c f))
      (perform_early-IsSticky takes c f takes_in_time (named_late c full) st)

-- If in the file every session with an owner in its id that is bound is bound to the node of this
-- owner, under a name that is not empty, this still holds after any calls whose node names are not
-- empty, in any order, also calls that are refused and calls whose write fails before or after the
-- file is replaced.
pub perform_all-IsSticky :
    (cs : List (Disk × Call)) (f : RouteFile)
    → All Names cs
    → FileIsSticky f
    → FileIsSticky (perform_all cs f)
unfolding perform_all
perform_all-IsSticky [] f full st = st
perform_all-IsSticky (c ∷ cs) f (n, ns) st =
    perform_all-IsSticky cs (perform c f) ns (perform-IsSticky c.0 c.1 f n st)
