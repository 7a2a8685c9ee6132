-- ===== src/Upstream/Request.antt =====
-- `_hermes_json` of src/xpd_report_agent/api/sessions.py behind its choice of a node: the attempts of
-- one request, and the errors that they become. `send k` is what the HTTP client makes of the k-th.
use xpd_report_agent.Prelude.{
  take, ℕ, zero, suc, ◌+◌, ◌-◌, String, Bool, true, false, not, ◌&&◌, ◌||◌, Option, none, some,
  List, [], ◌∷◌, leb, ◌==◌, str_eq, if◌then◌else◌, min, max,
}
use xpd_report_agent.Prelude.Json.{Json, Fields, pos, negsuc}
use xpd_report_agent.Prelude.Env.{Setting, number}
use xpd_report_agent.Prelude.Text.{append, chars, of_chars}
use xpd_report_agent.Prelude.Result.{Outcome, ok, err, ◌>>=◌, ◌>>◌}
use xpd_report_agent.Errors.Contract.{Described, is_transient}

-- A response, with its JSON value where the content is JSON.
pub record Response : Type 0 where
  pub status_code : ℕ
  pub is_success : Bool
  pub content : String
  pub json : Option Json

-- No connection was made, a time-out after that, another error of the client, or a response.
pub data Exchange : Type 0 where
  connect_error timeout connection_error : Exchange
  response : Response → Exchange

-- An error with its status, or that of a body that is no JSON.
pub data UpstreamError : Type 0 where
  http : ℕ → Described → UpstreamError
  no_response invalid_json : UpstreamError

-- The request: its action in words, its node, and whether its method may be repeated.
pub record Call : Type 0 where
  pub action : String
  pub node_id : String
  pub safe_retry : Bool

unfoldable pub hermes_connect_attempts : Setting → ℕ
hermes_connect_attempts (number (pos n)) = max 1 (min 5 n)
hermes_connect_attempts (number (negsuc n)) = 1
hermes_connect_attempts _ = 3

-- `upper` is Python's `str.upper`.
unfoldable pub safe_http_retry : (String → String) → String → Bool
safe_http_retry upper method =
    let name = upper method in str_eq name "GET" || str_eq name "HEAD" || str_eq name "OPTIONS"

-- The status and the code of a response that is no success, and whether it is retryable
pub record Failed : Type 0 where
  pub status_code : ℕ
  pub code : String
  pub retryable : Bool

abbrev failed : ℕ → String → Bool → Failed
failed status code retryable = record { status_code = status; code = code; retryable = retryable }

unfoldable pub failure_of : ℕ → Failed
failure_of n =
    if n == 400
    then failed 400 "HERMES_BAD_REQUEST" false
    else if n == 404
    then failed 404 "HERMES_NOT_FOUND" false
    else if n == 409
    then failed 409 "HERMES_CONFLICT" false
    else if n == 422
    then failed 422 "HERMES_VALIDATION_ERROR" false
    else if n == 401 || n == 403
    then failed 502 "HERMES_AUTH_ERROR" false
    else if n == 429
    then failed 503 "HERMES_RATE_LIMITED" true
    else if n == 503
    then failed 503 "HERMES_UNAVAILABLE" true
    else if n == 504
    then failed 504 "HERMES_TIMEOUT" true
    else failed 502 "HERMES_UPSTREAM_ERROR" (leb 500 n)

-- `response.text[:1000]` where the body is no JSON
abbrev body_of : Response → Json
body_of r = elim r.json [
  | some body ↦ body
  | none ↦ Json.str (of_chars (take 1000 (chars r.content)))
]

unfoldable pub raise_upstream : Call → Bool → Response → Outcome UpstreamError (Unit {0})
raise_upstream c outcome_unknown r =
    let f = failure_of r.status_code in
    if r.is_success
    then ok tt
    else err (
        http f.status_code (record {
          code = f.code;
          message = append "Hermes failed to " (append c.action ".");
          retryable = f.retryable;
          outcome_unknown = outcome_unknown && f.retryable;
          details = Fields.field "upstream_status" (Json.int (pos r.status_code)) (
              Fields.field "node_id" (Json.str c.node_id)
                (Fields.field "body" (body_of r) Fields.end));
        }))

abbrev attempted : Call → ℕ → Fields
attempted c attempt =
    Fields.field "attempts" (Json.int (pos attempt))
      (Fields.field "node_id" (Json.str c.node_id) Fields.end)

abbrev gave_up : Call → ℕ → ℕ → String → String → Bool → UpstreamError
gave_up c attempt status code message outcome_unknown = http status (record {
  code = code;
  message = append message (append c.action ".");
  retryable = true;
  outcome_unknown = outcome_unknown;
  details = attempted c attempt;
})

-- What follows an attempt.
pub data Next : Type 0 where
  again : Next
  give_up : UpstreamError → Next
  answered : Response → Next

-- `more` is `attempt < attempts`.
unfoldable pub after : Call → Bool → ℕ → Exchange → Next
after c more attempt connect_error =
    if more
    then again
    else give_up
        (gave_up c attempt 503 "HERMES_UNAVAILABLE" "Hermes is unavailable while trying to " false)
after c more attempt timeout =
    if c.safe_retry && more
    then again
    else give_up (
        gave_up c attempt 504 "HERMES_TIMEOUT" "Hermes timed out while trying to "
          (not c.safe_retry))
after c more attempt connection_error =
    if c.safe_retry && more
    then again
    else give_up (
        gave_up c attempt 502 "HERMES_CONNECTION_ERROR" "Hermes connection failed while trying to "
          (not c.safe_retry))
after c more attempt (response r) =
    if is_transient r.status_code && c.safe_retry && more then again else answered r

-- The exchanges that were made, in order, and how they ended.
pub record Sent : Type 0 where
  pub exchanges : List Exchange
  pub result : Outcome UpstreamError Response

abbrev pub made : Exchange → Sent → Sent
made e s = record { exchanges = e ∷ s.exchanges; result = s.result }

-- A last attempt that would go on has no response.
abbrev pub last : Exchange → Next → Sent
last e again = record { exchanges = e ∷ []; result = err no_response }
last e (give_up x) = record { exchanges = e ∷ []; result = err x }
last e (answered r) = record { exchanges = e ∷ []; result = ok r }

-- An attempt with others left: `rest` is what comes of them.
abbrev pub onward : Exchange → Next → Sent → Sent
onward e again rest = made e rest
onward e (give_up x) rest = record { exchanges = e ∷ []; result = err x }
onward e (answered r) rest = record { exchanges = e ∷ []; result = ok r }

-- The loop from an attempt on, with so many attempts left after it
unfoldable pub attempts_from : Call → (ℕ → Exchange) → ℕ → ℕ → Sent
attempts_from c send attempt zero = last (send attempt) (after c false attempt (send attempt))
attempts_from c send attempt (suc left) =
    let rest = attempts_from c send (attempt + 1) left in
    onward (send attempt) (after c true attempt (send attempt)) rest

abbrev json_of : Response → Outcome UpstreamError Json
json_of r =
    if str_eq r.content ""
    then ok (Json.obj Fields.end)
    else elim r.json [ some body ↦ ok body | none ↦ err invalid_json ]

unfoldable pub read_response : Call → Outcome UpstreamError Response → Outcome UpstreamError Json
read_response c result = do r ← result; raise_upstream c (not c.safe_retry) r; json_of r

-- `attempts` is at least one.
unfoldable pub exchanges_of : Call → (ℕ → Exchange) → ℕ → Sent
exchanges_of c send attempts = attempts_from c send 1 (attempts - 1)

unfoldable pub hermes_json : Call → (ℕ → Exchange) → Setting → Outcome UpstreamError Json
hermes_json c send setting =
    read_response c (exchanges_of c send (hermes_connect_attempts setting)).result
