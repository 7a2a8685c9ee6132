-- ===== src/Errors/Contract.antt =====
-- The unified error envelope of src/xpd_report_agent/api/error_contract.py. The phrase that Python's
-- `HTTPStatus` gives a status, if it knows it, and `str` of a JSON value are arguments.
use xpd_report_agent.Prelude.{
  all, ℕ, String, ◌≡◌, refl, Bool, false, ◌&&◌, ◌||◌, Option, none, some, List, [], ◌∷◌, leb, ◌==◌,
  str_eq, if◌then◌else◌, length,
}
use Prim.Native.Char.{Char, code}
use xpd_report_agent.Prelude.Text.{chars, strip, append}
use xpd_report_agent.Prelude.Patterns.{is_digit}
use xpd_report_agent.Prelude.Json.{Json, Fields, truthy, get}

-- The codes that have names of their own
abbrev pub status_codes : List (ℕ × String)
status_codes =
    (400, "BAD_REQUEST")
    ∷ (401, "UNAUTHORIZED")
    ∷ (403, "FORBIDDEN")
    ∷ (404, "NOT_FOUND")
    ∷ (409, "CONFLICT")
    ∷ (422, "VALIDATION_ERROR")
    ∷ (429, "RATE_LIMITED")
    ∷ (500, "INTERNAL_ERROR")
    ∷ (502, "BAD_GATEWAY")
    ∷ (503, "SERVICE_UNAVAILABLE")
    ∷ (504, "UPSTREAM_TIMEOUT")
    ∷ []

-- `codes.get(status_code, default)`
abbrev pub code_of : List (ℕ × String) → ℕ → String → String
code_of [] status_code default = default
code_of ((n, name) ∷ codes) status_code default =
    if n == status_code then name else code_of codes status_code default

pub record ApiError : Type 0 where
  pub code : String
  pub message : String
  pub retryable : Bool
  pub outcome_unknown : Bool
  pub request_id : String

pub record ApiErrorResponse : Type 0 where
  pub ok : Bool
  pub error : ApiError
  pub detail : Json

-- `[A-Za-z0-9]`
abbrev is_alphanumeric : Char → Bool
is_alphanumeric c =
    is_digit c
    || (leb b'a' (code c) && leb (code c) b'z')
    || (leb b'A' (code c) && leb (code c) b'Z')

-- `[A-Za-z0-9._:-]`
abbrev is_id_character : Char → Bool
is_id_character c =
    is_alphanumeric c || code c == b'.' || code c == b'_' || code c == b':' || code c == b'-'

-- `_REQUEST_ID_PATTERN` in full
abbrev pub is_request_id : List Char → Bool
is_request_id [] = false
is_request_id (c ∷ s) = is_alphanumeric c && leb (length s) 127 && all is_id_character s

abbrev text_or : Option String → String → String
text_or none d = d
text_or (some s) d = if str_eq s "" then d else s

-- `fresh` is the random hex text.
unfoldable pub request_id_from_header : String → Option String → String
request_id_from_header fresh value =
    let candidate = strip (text_or value "") in
    if is_request_id (chars candidate) then candidate else append "req_" fresh

-- An exception that carries an HTTP status.
pub record HttpException : Type 0 where
  pub status_code : ℕ
  pub detail : Json

-- The arguments of `api_error` but the status; `details` are the further fields.
pub record Described : Type 0 where
  pub code : String
  pub message : String
  pub retryable : Bool
  pub outcome_unknown : Bool
  pub details : Fields

unfoldable pub api_error : ℕ → Described → HttpException
api_error status_code d = record {
  status_code = status_code;
  detail = Json.obj (
      Fields.field "code" (Json.str d.code) (
        Fields.field "message" (Json.str d.message) (
          Fields.field "retryable" (Json.bool d.retryable)
            (Fields.field "outcome_unknown" (Json.bool d.outcome_unknown) d.details))));
}

-- `status_code in {429, 502, 503, 504}`
abbrev pub is_transient : ℕ → Bool
is_transient n = n == 429 || n == 502 || n == 503 || n == 504

abbrev pub phrase_of : (ℕ → Option String) → ℕ → String
phrase_of phrase status_code = elim (phrase status_code) [ some p ↦ p | none ↦ "Request failed" ]

-- `str(value or default)` of a field that may be missing
abbrev pub shown_or : (Json → String) → Option Json → String → String
shown_or str_of none d = d
shown_or str_of (some v) d = if truthy v then str_of v else d

-- `bool(fields.get(key, default))`
abbrev pub flag_or : Option Json → Bool → Bool
flag_or none d = d
flag_or (some v) d = truthy v

-- The `error` of an envelope: a `detail` that is an object gives its fields, any other its text.
unfoldable pub error_of : (ℕ → Option String) → (Json → String) → ℕ → Json → String → ApiError
error_of phrase str_of status_code (Json.obj fs) request_id = record {
  code = shown_or str_of (get "code" fs) (code_of status_codes status_code "HTTP_ERROR");
  message = shown_or str_of (get "message" fs) (phrase_of phrase status_code);
  retryable = flag_or (get "retryable" fs) (is_transient status_code);
  outcome_unknown = flag_or (get "outcome_unknown" fs) false;
  request_id = request_id;
}
error_of phrase str_of status_code detail request_id = record {
  code = code_of status_codes status_code "HTTP_ERROR";
  message = shown_or str_of (some detail) (phrase_of phrase status_code);
  retryable = is_transient status_code;
  outcome_unknown = false;
  request_id = request_id;
}

unfoldable pub error_payload :
    (ℕ → Option String) → (Json → String) → ℕ → Json → String → ApiErrorResponse
error_payload phrase str_of status_code detail request_id = record {
  ok = false;
  error = error_of phrase str_of status_code detail request_id;
  detail = detail;
}

-- The envelope of an error that the code itself describes has that description.
pub error_payload-api_error :
    (phrase : ℕ → Option String) (str_of : Json → String) (status_code : ℕ) (d : Described)
    (request_id : String)
    → ((s : String) → str_of (Json.str s) ≡ s)
    → str_eq d.code "" ≡ false
    → str_eq d.message "" ≡ false
    → let e = (api_error status_code d) in
      (error_payload phrase str_of e.status_code e.detail request_id).error ≡ record {
        code = d.code;
        message = d.message;
        retryable = d.retryable;
        outcome_unknown = d.outcome_unknown;
        request_id = request_id;
      }
unfolding error_payload error_of api_error get
error_payload-api_error phrase str_of status_code d request_id shows c m =
    rw c (rw m (rw (shows d.code) (rw (shows d.message) refl)))
