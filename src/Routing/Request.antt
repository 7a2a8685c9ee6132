-- ===== src/Routing/Request.antt =====
-- What `resolve_hermes_node` of src/xpd_report_agent/api/hermes_routing.py reads off a request.
use xpd_report_agent.Prelude.{
  String, Bool, true, false, ◌||◌, Option, none, some, List, [], ◌∷◌, ◌==◌, str_eq, if◌then◌else◌,
}
use Prim.Native.Char.{Char, code}
use mathlib.Core.List.{reverse}
use xpd_report_agent.Prelude.Json.{Json, Fields, truthy, get}
use xpd_report_agent.Prelude.Text.{chars, of_chars}
use xpd_report_agent.Prelude.Patterns.{behind}
use xpd_report_agent.Routes.Store.{RouteError}

-- The 503 with the node it names, the 403, or an exception that the code lets pass.
pub data ResolveError : Type 0 where
  pool_unavailable : Option String → ResolveError
  session_ownership_mismatch : ResolveError
  raised : RouteError → ResolveError

-- The longest prefix without `/` and `?`
abbrev segment : List Char → List Char
segment [] = []
segment (c ∷ s) = let rest = c ∷ segment s in if code c == b'/' || code c == b'?' then [] else rest

abbrev drop_slashes : List Char → List Char
drop_slashes [] = []
drop_slashes (c ∷ s) = let rest = drop_slashes s in if code c == b'/' then rest else c ∷ s

-- `path.rstrip("/")`
abbrev without_slashes : String → String
without_slashes path = of_chars (reverse (drop_slashes (reverse (chars path))))

abbrev nonempty : List Char → Option String
nonempty [] = none
nonempty (c ∷ s) = some (of_chars (c ∷ s))

-- `_SESSION_PATH_PATTERN`: group 1
unfoldable pub session_of_path : String → Option String
session_of_path path = elim (behind (chars "/api/sessions/") (chars path)) [
  | none ↦ none
  | some rest ↦ nonempty (segment rest)
]

-- `str_of` is Python's `str`.
abbrev pub id_in : (Json → String) → Option Fields → Option String
id_in str_of none = none
id_in str_of (some payload) = elim (get "id" payload) [
  | none ↦ none
  | some id ↦ if truthy id then some (str_of id) else none
]

unfoldable pub session_id_from_request : (Json → String) → String → Option Fields → Option String
session_id_from_request str_of path payload = elim (session_of_path path) [
  | some session_id ↦ some session_id
  | none ↦ if str_eq (without_slashes path) "/api/sessions" then id_in str_of payload else none
]

abbrev starts_with : String → String → Bool
starts_with prefix path = elim (behind (chars prefix) (chars path)) [ none ↦ false | some _ ↦ true ]

unfoldable pub is_scheduler_path : String → Bool
is_scheduler_path path = starts_with "/api/xpd-cron" path || starts_with "/api/jobs" path
