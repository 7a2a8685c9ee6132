-- ===== src/QueryResults/Tests.antt =====
-- A small run of the registry of src/xpd_report_agent/hermes_plugin/db_query/query_results.py.
use xpd_report_agent.Prelude.Sort.{place, sort}
use xpd_report_agent.Prelude.Patterns.{contains, is_result_id, owner_scope_from_session_id}
use xpd_report_agent.QueryResults.Reads.{get_sound}
use xpd_report_agent.QueryResults.Registry.{
  get_for, get, show_to, store_for, make_room, fit_bytes, evict_oldest, evict_owned, prune,
  remove_all, safe_session_id, max_total_bytes, max_bytes_per_result, max_results_per_session,
  max_results, ttl_seconds, Settings, Item, store, bounded_env, Query,
}
use xpd_report_agent.QueryResults.Bounds.{store-IsBounded, IsBounded}
use xpd_report_agent.Prelude.Dict.{remove, insert, lookup, Dict}
use xpd_report_agent.Prelude.Env.{unset, malformed, number}
use xpd_report_agent.Prelude.Json.{pos}
use xpd_report_agent.Prelude.{◌<◌, String, ◌≡◌, refl, false, none, some, [], ◌∷◌, arith}

program : Unit {0}
unfolding bounded_env ttl_seconds max_results max_results_per_session max_bytes_per_result
    max_total_bytes safe_session_id remove_all prune evict_owned evict_oldest fit_bytes make_room
    store_for store show_to get_for get owner_scope_from_session_id is_result_id contains sort place
    lookup insert remove
program = tt

abbrev settings : Settings
settings = record {
  ttl = unset;
  entries = unset;
  per_session = number (pos 1);
  bytes_per_result = unset;
  total_bytes = malformed;
}

abbrev session : String
session = "xpd_0123456789abcdef0123_a"

abbrev id1 : String
id1 = "result_0123456789abcdef0123456789abcdef"

abbrev id2 : String
id2 = "result_ffffffffffffffffffffffffffffffff"

abbrev query : Query
query = record {
  session_id = session;
  sql = "SELECT 1";
  columns = [];
  rows = [];
  truncated = false;
  new_id = id1;
  now = 10;
}

abbrev item : Item
item = record {
  result_id = id1;
  session_id = session;
  sql = "SELECT 1";
  columns = [];
  rows = [];
  truncated = false;
  created_at = 10;
  expires_at = 3610;
  size_bytes = 7;
}

abbrev one : Dict Item
one = (id1, item) ∷ []

stored : store (λ x. 7) settings query [] ≡ (one, some id1)
unfolding program
stored = refl

-- The second result of a session with one place drives the first out.
replaced :
    (store (λ x. 7) settings (record query { new_id = id2; now = 20 }) one).0
    ≡ (id2, record item { result_id = id2; created_at = 20; expires_at = 3620 }) ∷ []
unfolding program
replaced = refl

got : (get settings id1 session 3609 one).1 ≡ some item
unfolding program
got = refl

expired : get settings id1 session 3610 one ≡ ([], none)
unfolding program
expired = refl

nothing-IsBounded : IsBounded settings []
nothing-IsBounded = record { entries = omega arith; total = omega arith; owned = λ s. omega arith }

store-IsBounded_example : IsBounded settings (store (λ x. 7) settings query []).0
store-IsBounded_example = store-IsBounded (λ x. 7) settings query [] nothing-IsBounded

get_sound_example :
    (lookup id1 one ≡ some item) × (item.session_id ≡ session) × (3609 < item.expires_at)
get_sound_example = get_sound settings id1 session 3609 one got
