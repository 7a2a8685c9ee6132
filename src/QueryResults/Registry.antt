-- ===== src/QueryResults/Registry.antt =====
-- `QueryResultRegistry` of src/xpd_report_agent/hermes_plugin/db_query/query_results.py. Times are
-- whole ticks of the clock; the size of a payload, its JSON text in bytes, is a parameter.
use xpd_report_agent.Prelude.{
  ℕ, ◌+◌, ◌-◌, ◌*◌, String, Bool, true, false, ◌||◌, Option, none, some, List, [], ◌∷◌, map, ltb,
  leb, str_eq, if◌then◌else◌, filter, take, length, sum_by,
}
use xpd_report_agent.Prelude.Json.{pos, Json}
use xpd_report_agent.Prelude.Dict.{Dict, lookup, insert, remove}
use xpd_report_agent.Prelude.Sort.{sort}
use xpd_report_agent.Prelude.Env.{Setting, unset, malformed, number, clamp}
use xpd_report_agent.Prelude.Patterns.{owner_scope_from_session_id, is_result_id, contains}

-- `_bounded_env`, of which `_ttl_seconds` and `_max_results` are written out copies
unfoldable pub bounded_env : Setting → ℕ → ℕ → ℕ → ℕ
bounded_env unset default low high = clamp low high (pos default)
bounded_env malformed default low high = default
bounded_env (number n) default low high = clamp low high n

-- The environment variables of the registry.
pub record Settings : Type 0 where
  pub ttl : Setting
  pub entries : Setting
  pub per_session : Setting
  pub bytes_per_result : Setting
  pub total_bytes : Setting

unfoldable pub ttl_seconds : Settings → ℕ
unfolding bounded_env
ttl_seconds s = bounded_env s.ttl 3600 60 86400

unfoldable pub max_results : Settings → ℕ
unfolding bounded_env
max_results s = bounded_env s.entries 500 10 5000

unfoldable pub max_results_per_session : Settings → ℕ
unfolding bounded_env
max_results_per_session s = bounded_env s.per_session 20 1 1000

unfoldable pub max_bytes_per_result : Settings → ℕ
unfolding bounded_env
max_bytes_per_result s =
    bounded_env s.bytes_per_result (5 * 1024 * 1024) (64 * 1024) (50 * 1024 * 1024)

unfoldable pub max_total_bytes : Settings → ℕ
unfolding bounded_env
max_total_bytes s = bounded_env s.total_bytes (50 * 1024 * 1024) (1024 * 1024) (1024 * 1024 * 1024)

-- What `store` puts under a result id.
pub record Item : Type 0 where
  pub result_id : String
  pub session_id : String
  pub sql : String
  pub columns : List String
  pub rows : List Json
  pub truncated : Bool
  pub created_at : ℕ
  pub expires_at : ℕ
  pub size_bytes : ℕ

-- `_session_id`
unfoldable pub safe_session_id : String → Option String
safe_session_id s = elim (owner_scope_from_session_id s) [
  | none ↦ none
  | some scope ↦ if contains "_reflection_" s then none else some s
]

-- `for result_id in ids: self._results.pop(result_id, None)`
unfoldable pub remove_all : List String → Dict Item → Dict Item
remove_all [] d = d
remove_all (k ∷ ks) d = remove_all ks (remove k d)

abbrev pub older : String × Item → String × Item → Bool
older a b = leb a.1.created_at b.1.created_at

-- `sorted(items, key=created_at)`
abbrev pub by_age : Dict Item → Dict Item
by_age = sort older

abbrev pub ids : Dict Item → List String
ids = map (λ e. e.0)

-- `_prune`
unfoldable pub prune : Settings → ℕ → ℕ → Dict Item → Dict Item
prune s now reserve d =
    let live = remove_all (ids (filter (λ e. leb e.1.expires_at now) d)) d in
    let allowed = max_results s - reserve in
    let overflow = length live - allowed in remove_all (ids (take overflow (by_age live))) live

-- The `while` loop of `_make_room` over the session's own results, oldest first.
unfoldable pub evict_owned : ℕ → Dict Item → Dict Item → Dict Item
evict_owned limit [] d = d
evict_owned limit (e ∷ owned) d =
    let rest = evict_owned limit owned (remove e.0 d) in
    if leb limit (length (e ∷ owned)) then rest else d

-- The `for` loop of `_make_room` over all results, oldest first.
unfoldable pub evict_oldest : ℕ → ℕ → ℕ → Dict Item → Dict Item → Dict Item × Bool
evict_oldest limit size total [] d = (d, leb (total + size) limit)
evict_oldest limit size total (e ∷ oldest) d =
    let left = total - e.1.size_bytes in
    let rest = evict_oldest limit size left oldest (remove e.0 d) in
    if leb (left + size) limit then (remove e.0 d, true) else rest

abbrev pub is_of : String → String × Item → Bool
is_of session e = str_eq e.1.session_id session

-- `sum(item["size_bytes"] for item in self._results.values())`
abbrev pub bytes : Dict Item → ℕ
bytes = sum_by (λ e. e.1.size_bytes)

-- The second half of `_make_room`: the bytes of all results.
unfoldable pub fit_bytes : ℕ → ℕ → Dict Item → Dict Item × Bool
fit_bytes limit size d =
    if leb (bytes d + size) limit then (d, true) else evict_oldest limit size (bytes d) (by_age d) d

-- `_make_room`: the registry after it, and whether there is room
unfoldable pub make_room : Settings → String → ℕ → Dict Item → Dict Item × Bool
make_room s session size d =
    if ltb (max_bytes_per_result s) size || ltb (max_total_bytes s) size
    then (d, false)
    else fit_bytes (max_total_bytes s) size
        (evict_owned (max_results_per_session s) (by_age (filter (is_of session) d)) d)

-- The arguments of `store`, with the id that `uuid4` gives and the reading of the clock.
pub record Query : Type 0 where
  pub session_id : String
  pub sql : String
  pub columns : List String
  pub rows : List Json
  pub truncated : Bool
  pub new_id : String
  pub now : ℕ

abbrev pub payload : Settings → Query → ℕ → Item
payload s q size = record {
  result_id = q.new_id;
  session_id = q.session_id;
  sql = q.sql;
  columns = q.columns;
  rows = q.rows;
  truncated = q.truncated;
  created_at = q.now;
  expires_at = q.now + ttl_seconds s;
  size_bytes = size;
}

-- `store` behind its check of the session id. `payload_size` reads the item before its size is
-- entered.
unfoldable pub store_for :
    (Item → ℕ) → Settings → Query → Dict Item → Option String → Dict Item × Option String
store_for payload_size s q d none = (d, none)
store_for payload_size s q d (some session) =
    let size = payload_size (payload s q 0) in
    let room = make_room s session size (prune s q.now 1 d) in
    if ltb (max_bytes_per_result s) size || ltb (max_total_bytes s) size
    then (d, none)
    else if room.1
    then (insert q.new_id (payload s q size) room.0, some q.new_id)
    else (room.0, none)

-- `store`: the registry after the call, and the id that it returns
unfoldable pub store : (Item → ℕ) → Settings → Query → Dict Item → Dict Item × Option String
store payload_size s q d = store_for payload_size s q d (safe_session_id q.session_id)

-- `get` behind its lookup: an item of another session is not shown.
unfoldable pub show_to : String → Option Item → Option Item
show_to session none = none
show_to session (some item) = if str_eq item.session_id session then some item else none

unfoldable pub get_for : Settings → String → ℕ → Dict Item → Option String → Dict Item × Option Item
get_for s result_id now d none = (d, none)
get_for s result_id now d (some session) =
    if is_result_id result_id
    then (prune s now 0 d, show_to session (lookup result_id (prune s now 0 d)))
    else (d, none)

-- `get`: the registry after the call, and the item that it returns
unfoldable pub get : Settings → String → String → ℕ → Dict Item → Dict Item × Option Item
get s result_id session_id now d = get_for s result_id now d (safe_session_id session_id)
