-- ===== src/Discovery/Fetch.antt =====
-- The pages of endpoint slices and the cache of nodes, `KubernetesEndpointSliceDiscovery` of
-- src/xpd_report_agent/kubernetes_discovery.py. The answers of the API are a list, in the order in
-- which they come; where it ends, the HTTP client fails.
use xpd_report_agent.Prelude.{
  any, ℕ, ◌+◌, String, Bool, false, not, ◌&&◌, ◌||◌, Option, none, some, List, [], ◌∷◌, ◌++◌, ltb,
  leb, ◌==◌, str_eq, if◌then◌else◌, length,
}
use xpd_report_agent.Prelude.Json.{Json, Items, nil, cons, Fields, get}
use xpd_report_agent.Prelude.Text.{strip, text_le}
use xpd_report_agent.Prelude.Dict.{values}
use xpd_report_agent.Prelude.Sort.{sort}
use xpd_report_agent.Prelude.Result.{ok, err, guard, ◌>>=◌, ◌>>◌}
use xpd_report_agent.Routes.Pool.{HermesNode}
use xpd_report_agent.Discovery.Slices.{
  configuration, authorization, response_error, unavailable, api_error, Discovered, Service,
  append_all,
}

-- A response: its status, and its JSON value where it has one
pub record Reply : Type 0 where
  pub status_code : ℕ
  pub json : Option Json

unfoldable pub raise_for_status : ℕ → Discovered (Unit {0})
raise_for_status n = do
  guard (not (n == 401 || n == 403)) authorization
  guard (leb 200 n && ltb n 300) (api_error (some n))

abbrev is_named : String → Option Json → Bool
is_named s (some (Json.str t)) = str_eq t s
is_named s _ = false

unfoldable pub response_payload : Option Json → Discovered Fields
response_payload (some (Json.obj fs)) = do
  guard (is_named "discovery.k8s.io/v1" (get "apiVersion" fs)) response_error
  guard (is_named "EndpointSliceList" (get "kind" fs)) response_error
  ok fs
response_payload _ = err response_error

abbrev to_list : Items → List Json
to_list nil = []
to_list (cons v vs) = v ∷ to_list vs

abbrev page_items : Option Json → Discovered (List Json)
page_items (some (Json.arr items)) = ok (to_list items)
page_items _ = err response_error

-- `metadata.get("continue", "")`, without outer spaces
abbrev token_in : Option Json → Discovered String
token_in none = ok ""
token_in (some Json.null) = ok ""
token_in (some (Json.str token)) = ok (strip token)
token_in _ = err response_error

abbrev next_token : Option Json → Discovered String
next_token none = ok ""
next_token (some (Json.obj metadata)) = token_in (get "continue" metadata)
next_token _ = err response_error

abbrev is_seen : List String → String → Bool
is_seen seen token = any (str_eq token) seen

-- The loop over the pages: the items of all of them
unfoldable pub pages : List Reply → List String → List Json → Discovered (List Json)
pages [] seen items = err (api_error none)
pages (r ∷ rs) seen items = do
  raise_for_status r.status_code
  payload ← response_payload r.json
  more ← page_items (get "items" payload)
  token ← next_token (get "metadata" payload)
  let rest = pages rs (token ∷ seen) (items ++ more)
  (if str_eq token ""
      then ok (items ++ more)
      else if is_seen seen token
      then err response_error
      else rest)

abbrev by_id : HermesNode → HermesNode → Bool
by_id n m = text_le n.node_id m.node_id

-- The nodes in the order of their ids; `token` is the token of the service account, if it can be read
-- and is not empty.
unfoldable pub fetch_nodes : Service → Option String → List Reply → Discovered (List HermesNode)
fetch_nodes service none replies = err configuration
fetch_nodes service (some token) replies = do
  items ← pages replies [] []
  nodes ← append_all service items []
  guard (ltb 0 (length nodes)) unavailable
  ok (sort by_id (values nodes))

-- `_cached_nodes` with `_cache_expires_at`
pub record Cache : Type 0 where
  pub nodes : Option (List HermesNode)
  pub expires_at : ℕ

abbrev fresh : ℕ → Cache → Option (List HermesNode)
fresh now c = if ltb now c.expires_at then c.nodes else none

-- `discover_nodes`: `first` is the time of the call, `second` that with the lock held and `third`
-- that after the fetch. `locked` is the cache as the call finds it when it has the lock.
unfoldable pub discover_nodes :
    ℕ
    → ℕ
    → ℕ
    → ℕ
    → Discovered (List HermesNode)
    → Cache
    → Cache
    → Discovered (List HermesNode) × Cache
discover_nodes ttl first second third fetched c locked = elim (fresh first c) [
  | some nodes ↦ (ok nodes, c)
  | none ↦ elim (fresh second locked) [
    | some nodes ↦ (ok nodes, locked)
    | none ↦ elim fetched [
      | err e ↦ (err e, locked)
      | ok nodes ↦ (ok nodes, record { nodes = some nodes; expires_at = third + ttl })
    ]
  ]
]
