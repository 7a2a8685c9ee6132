-- ===== src/Discovery/Slices.antt =====
-- The nodes in the endpoint slices, `_append_slice_nodes` of
-- src/xpd_report_agent/kubernetes_discovery.py.
use xpd_report_agent.Prelude.{
  all, ℕ, String, Bool, true, false, not, ◌&&◌, ◌||◌, Option, none, some, List, [], ◌∷◌, ◌++◌, ltb,
  leb, ◌==◌, str_eq, if◌then◌else◌, length,
}
use Prim.Native.Char.{Char, code}
use xpd_report_agent.Prelude.Json.{Json, Items, nil, cons, Fields, get}
use xpd_report_agent.Prelude.Text.{chars, append}
use xpd_report_agent.Prelude.Patterns.{is_digit}
use xpd_report_agent.Prelude.Dict.{Dict, lookup, insert}
use xpd_report_agent.Prelude.Result.{Outcome, ok, err, guard, ◌>>=◌, ◌>>◌}
use xpd_report_agent.Routes.Pool.{HermesNode}

-- The classes of `KubernetesDiscoveryError`; an error of the API has a status, if there was a response.
pub data DiscoveryError : Type 0 where
  configuration authorization response_error unavailable : DiscoveryError
  api_error : Option ℕ → DiscoveryError

abbrev pub Discovered {ℓ} : Type ℓ → Type ℓ
Discovered A = Outcome DiscoveryError A

abbrev is_lower : Char → Bool
is_lower c = leb b'a' (code c) && leb (code c) b'z'

-- `[a-z0-9]` and `[-a-z0-9]`
abbrev is_outer : Char → Bool
is_outer c = is_lower c || is_digit c

abbrev is_inner : Char → Bool
is_inner c = is_outer c || code c == b'-'

-- Behind the first character: `(?:[-a-z0-9]{0,61}[a-z0-9])?`
abbrev ends_outer : Char → List Char → Bool
ends_outer c [] = is_outer c
ends_outer c (d ∷ s) = is_inner c && ends_outer d s

abbrev is_label_tail : List Char → Bool
is_label_tail [] = true
is_label_tail (c ∷ s) = leb (length s) 61 && ends_outer c s

unfoldable pub is_dns_label : List Char → Bool
is_dns_label [] = false
is_dns_label (c ∷ s) = is_outer c && is_label_tail s

-- `_SERVICE_NAME_PATTERN` in full
unfoldable pub is_service_name : String → Bool
is_service_name name = elim (chars name) [ [] ↦ false | c ∷ s ↦ is_lower c && is_label_tail s ]

-- The labels of `value.split(".")`; `label` is the current one, so far.
abbrev labels : List Char → List Char → List (List Char)
labels label [] = label ∷ []
labels label (c ∷ s) =
    let rest = labels [] s in
    let more = labels (label ++ c ∷ []) s in if code c == b'.' then label ∷ rest else more

unfoldable pub is_dns_subdomain : String → Bool
is_dns_subdomain value =
    let s = chars value in ltb 0 (length s) && leb (length s) 253 && all is_dns_label (labels [] s)

-- What the slices are read for; the port is a text.
pub record Service : Type 0 where
  pub namespace : String
  pub service_name : String
  pub hermes_port : String

-- `value is True`
abbrev is_true : Option Json → Bool
is_true (some (Json.bool b)) = b
is_true _ = false

abbrev is_text : String → Option Json → Bool
is_text s (some (Json.str t)) = str_eq t s
is_text s _ = false

-- `endpoint.get("conditions", {})`
abbrev conditions_of : Option Json → Discovered Fields
conditions_of none = ok Fields.end
conditions_of (some (Json.obj fs)) = ok fs
conditions_of (some _) = err response_error

-- The reference to a Pod
abbrev pod_of : Option Json → Option Fields
pod_of (some (Json.obj fs)) = if is_text "Pod" (get "kind" fs) then some fs else none
pod_of _ = none

abbrev pod_name : Option Json → Discovered String
pod_name (some (Json.str name)) = if is_dns_subdomain name then ok name else err response_error
pod_name _ = err response_error

abbrev is_own_namespace : String → Option Json → Bool
is_own_namespace namespace none = true
is_own_namespace namespace (some Json.null) = true
is_own_namespace namespace (some v) = is_text namespace (some v)

unfoldable pub node_of : Service → String → HermesNode
node_of service name = record {
  node_id = name;
  origin = append "http://" (
      append name (
        append "." (
          append service.service_name
            (append "." (append service.namespace (append ".svc:" service.hermes_port))))));
}

abbrev same_node : Option HermesNode → HermesNode → Bool
same_node none n = true
same_node (some m) n = str_eq m.node_id n.node_id && str_eq m.origin n.origin

unfoldable pub add_pod : Service → Fields → Dict HermesNode → Discovered (Dict HermesNode)
add_pod service target_ref nodes = do
  name ← pod_name (get "name" target_ref)
  guard (is_own_namespace service.namespace (get "namespace" target_ref)) response_error
  let n = node_of service name
  guard (same_node (lookup name nodes) n) response_error
  ok (insert name n nodes)

abbrev add_if : Service → Option Fields → Dict HermesNode → Discovered (Dict HermesNode)
add_if service none nodes = ok nodes
add_if service (some target_ref) nodes = add_pod service target_ref nodes

-- One endpoint: one that is not ready, that terminates, or that is no Pod is passed over.
unfoldable pub add_endpoint : Service → Json → Dict HermesNode → Discovered (Dict HermesNode)
add_endpoint service (Json.obj endpoint) nodes = do
  conditions ← conditions_of (get "conditions" endpoint)
  (if is_true (get "ready" conditions) && not (is_true (get "terminating" conditions))
      then add_if service (pod_of (get "targetRef" endpoint)) nodes
      else ok nodes)
add_endpoint service _ nodes = err response_error

unfoldable pub add_endpoints : Service → Items → Dict HermesNode → Discovered (Dict HermesNode)
add_endpoints service nil nodes = ok nodes
add_endpoints service (cons e es) nodes = do
  next ← add_endpoint service e nodes
  add_endpoints service es next

abbrev add_listed : Service → Option Json → Dict HermesNode → Discovered (Dict HermesNode)
add_listed service (some (Json.arr es)) nodes = add_endpoints service es nodes
add_listed service _ nodes = err response_error

unfoldable pub append_slice_nodes : Service → Json → Dict HermesNode → Discovered (Dict HermesNode)
append_slice_nodes service (Json.obj item) nodes = add_listed service (get "endpoints" item) nodes
append_slice_nodes service _ nodes = err response_error

unfoldable pub append_all : Service → List Json → Dict HermesNode → Discovered (Dict HermesNode)
append_all service [] nodes = ok nodes
append_all service (item ∷ items) nodes = do
  next ← append_slice_nodes service item nodes
  append_all service items next
