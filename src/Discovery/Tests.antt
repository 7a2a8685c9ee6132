-- ===== src/Discovery/Tests.antt =====
-- Tests of Discovery on a list of two pages.
use xpd_report_agent.Prelude.{String, ◌≡◌, refl, Bool, true, false, none, some, [], ◌∷◌}
use xpd_report_agent.Prelude.Json.{Json, Items, nil, cons, Fields, get}
use xpd_report_agent.Prelude.Text.{strip}
use xpd_report_agent.Prelude.Dict.{lookup, insert}
use xpd_report_agent.Prelude.Sort.{sort, place}
use xpd_report_agent.Prelude.Result.{ok, err}
use xpd_report_agent.Routes.Pool.{HermesNode}
use xpd_report_agent.Discovery.Slices.{
  Service, is_dns_label, is_dns_subdomain, node_of, add_pod, add_endpoint, add_endpoints,
  append_slice_nodes, append_all, authorization, response_error, unavailable,
}
use xpd_report_agent.Discovery.Fetch.{
  Reply, raise_for_status, response_payload, pages, fetch_nodes, Cache, discover_nodes,
}

program : Unit {0}
unfolding get strip lookup insert sort place is_dns_label is_dns_subdomain node_of add_pod
    add_endpoint add_endpoints append_slice_nodes append_all raise_for_status response_payload pages
    fetch_nodes discover_nodes
program = tt

abbrev service : Service
service = record { namespace = "xpd"; service_name = "hermes"; hermes_port = "8642" }

abbrev one : String → Json → Fields → Fields
one k v fs = Fields.field k v fs

-- A Pod that is ready, or not
abbrev endpoint : String → Bool → Json
endpoint name ready = Json.obj (
    one "conditions" (Json.obj (one "ready" (Json.bool ready) Fields.end)) (
      one "targetRef"
        (Json.obj (
          one "kind" (Json.str "Pod")
            (one "name" (Json.str name) (one "namespace" (Json.str "xpd") Fields.end))))
        Fields.end))

abbrev page : String → Items → Reply
page token endpoints = record {
  status_code = 200;
  json = some (
      Json.obj (
        one "apiVersion" (Json.str "discovery.k8s.io/v1") (
          one "kind" (Json.str "EndpointSliceList") (
            one "items"
              (Json.arr (cons (Json.obj (one "endpoints" (Json.arr endpoints) Fields.end)) nil))
              (one "metadata" (Json.obj (one "continue" (Json.str token) Fields.end))
                Fields.end)))));
}

abbrev node : String → String → HermesNode
node id origin = record { node_id = id; origin = origin }

two_pages :
    fetch_nodes service (some "t") (
      page "next" (cons (endpoint "hermes-1" true) (cons (endpoint "hermes-2" false) nil))
      ∷ page " " (cons (endpoint "hermes-0" true) (cons (endpoint "hermes-1" true) nil))
      ∷ [])
    ≡ ok (
        node "hermes-0" "http://hermes-0.hermes.xpd.svc:8642"
        ∷ node "hermes-1" "http://hermes-1.hermes.xpd.svc:8642"
        ∷ [])
unfolding program
two_pages = refl

repeated_token :
    fetch_nodes service (some "t") (page "next" nil ∷ page "next" nil ∷ []) ≡ err response_error
unfolding program
repeated_token = refl

no_node : fetch_nodes service (some "t") (page "" nil ∷ []) ≡ err unavailable
unfolding program
no_node = refl

forbidden :
    fetch_nodes service (some "t") (record { status_code = 403; json = none } ∷ [])
    ≡ err authorization
unfolding program
forbidden = refl

bad_name : is_dns_subdomain "hermes-.x" ≡ false
unfolding program
bad_name = refl

abbrev cached : Cache
cached = record { nodes = some []; expires_at = 10 }

from_cache : discover_nodes 5 9 9 9 (err unavailable) cached cached ≡ (ok [], cached)
unfolding program
from_cache = refl
