-- ===== src/Routes/Store.antt =====
-- `HermesRouteStore` of src/xpd_report_agent/hermes_pool.py. The values of the two objects are texts,
-- as the store writes them; a file of another form is `broken`. `disk` tells what becomes of the
-- write of the file.
use xpd_report_agent.Prelude.{
  String, Bool, false, not, ◌&&◌, Option, none, some, [], ◌∷◌, str_eq, if◌then◌else◌,
}
use xpd_report_agent.Prelude.Dict.{Dict, lookup, insert, remove}
use xpd_report_agent.Prelude.Patterns.{owner_scope_from_session_id, is_owner_scope}
use xpd_report_agent.Prelude.Result.{Outcome, ok, err, guard, ◌>>=◌, ◌>>◌}

pub record State : Type 0 where
  pub scopes : Dict String
  pub sessions : Dict String

pub data RouteFile : Type 0 where
  missing broken : RouteFile
  routes : State → RouteFile

-- `value_error` stands for Python's ValueError, `os_error` for an OSError that leaves the file, and
-- `late_os_error` for an OSError behind `os.replace`, with the file that stands then.
pub data RouteError : Type 0 where
  value_error os_error route_conflict route_unavailable configuration : RouteError
  late_os_error : RouteFile → RouteError

abbrev pub Routed {ℓ} : Type ℓ → Type ℓ
Routed A = Outcome RouteError A

-- The file that a call leaves that raised the error and began with the other file
abbrev pub left_by : RouteError → RouteFile → RouteFile
left_by (late_os_error written) f = written
left_by value_error f = f
left_by os_error f = f
left_by route_conflict f = f
left_by route_unavailable f = f
left_by configuration f = f

-- What the disk does in `_write_unlocked`: it takes the write; it refuses it before `os.replace`; or
-- the directory cannot be opened or synced after `os.replace`, so that the call raises although the
-- file is already the new one.
pub data Disk : Type 0 where
  takes refuses raises_late : Disk

unfoldable pub empty_state : State
empty_state = record { scopes = []; sessions = [] }

-- `_load_unlocked`
unfoldable pub load_state : RouteFile → Routed State
load_state missing = ok empty_state
load_state broken = err route_unavailable
load_state (routes s) = ok s

-- `_write_unlocked`: the file after it
unfoldable pub write_state : Disk → State → Routed RouteFile
write_state takes s = ok (routes s)
write_state refuses s = err os_error
write_state raises_late s = err (late_os_error (routes s))

-- `str(value) if value else None`
abbrev pub if_any : Option String → Option String
if_any none = none
if_any (some v) = if str_eq v "" then none else some v

abbrev pub or_else : Option String → Option String → Option String
or_else none b = b
or_else (some v) b = some v

-- `existing and existing != node_id`
abbrev pub differs : Option String → String → Bool
differs none node_id = false
differs (some v) node_id = not (str_eq v "") && not (str_eq v node_id)

abbrev pub owner_of : String → Routed String
owner_of session_id = elim (owner_scope_from_session_id session_id) [
  | none ↦ err value_error
  | some scope ↦ ok scope
]

unfoldable pub node_id_for_scope : String → RouteFile → Routed (Option String)
node_id_for_scope scope f = do
  guard (is_owner_scope scope) value_error
  s ← load_state f
  ok (if_any (lookup scope s.scopes))

unfoldable pub node_id_for_session : String → RouteFile → Routed (Option String)
node_id_for_session session_id f = do
  scope ← owner_of session_id
  s ← load_state f
  ok (or_else (if_any (lookup session_id s.sessions)) (if_any (lookup scope s.scopes)))

-- What `bind_scope` does to the loaded state.
unfoldable pub scope_bound : String → String → State → Routed State
scope_bound scope node_id s = do
  guard (not (differs (lookup scope s.scopes) node_id)) route_conflict
  ok (record s { scopes = insert scope node_id s.scopes })

unfoldable pub bind_scope : Disk → String → String → RouteFile → Routed RouteFile
bind_scope disk scope node_id f = do
  guard (is_owner_scope scope) value_error
  s ← load_state f
  bound ← scope_bound scope node_id s
  write_state disk bound

-- What `bind_session` does to the loaded state.
unfoldable pub session_bound : String → String → String → State → Routed State
session_bound scope session_id node_id s = do
  guard (not (differs (lookup scope s.scopes) node_id)) route_conflict
  guard (not (differs (lookup session_id s.sessions) node_id)) route_conflict
  ok (record {
    scopes = insert scope node_id s.scopes;
    sessions = insert session_id node_id s.sessions;
  })

unfoldable pub bind_session : Disk → String → String → RouteFile → Routed RouteFile
bind_session disk session_id node_id f = do
  scope ← owner_of session_id
  s ← load_state f
  bound ← session_bound scope session_id node_id s
  write_state disk bound

abbrev pub is_of_scope : String → String → Bool
is_of_scope scope session_id = elim (owner_scope_from_session_id session_id) [
  | none ↦ false
  | some owner ↦ str_eq owner scope
]

-- The loop of `rebind_scope_if_matches` over the sessions.
unfoldable pub move_sessions : String → String → Dict String → Dict String
move_sessions scope node_id [] = []
move_sessions scope node_id ((session_id, old) ∷ d) =
    let rest = move_sessions scope node_id d in
    if is_of_scope scope session_id then (session_id, node_id) ∷ rest else (session_id, old) ∷ rest

abbrev pub matches : Option String → String → Bool
matches none expected = false
matches (some v) expected = str_eq v expected

-- What `rebind_scope_if_matches` does to the loaded state, and what it returns.
unfoldable pub scope_rebound : String → String → String → State → State × Option String
scope_rebound scope expected replacement s =
    if matches (lookup scope s.scopes) expected
    then (
      record {
        scopes = insert scope replacement s.scopes;
        sessions = move_sessions scope replacement s.sessions;
      },
      some replacement,
    )
    else (s, if_any (lookup scope s.scopes))

-- The file is written also where nothing changed.
unfoldable pub write_rebound : Disk → State × Option String → Routed (Option String × RouteFile)
write_rebound disk (s, current) = do written ← write_state disk s; ok (current, written)

unfoldable pub rebind_scope_if_matches :
    Disk → String → String → String → RouteFile → Routed (Option String × RouteFile)
rebind_scope_if_matches disk scope expected replacement f = do
  guard (is_owner_scope scope) value_error
  s ← load_state f
  write_rebound disk (scope_rebound scope expected replacement s)

unfoldable pub remove_session : Disk → String → RouteFile → Routed RouteFile
remove_session disk session_id f = do
  s ← load_state f
  write_state disk (record s { sessions = remove session_id s.sessions })
