-- ===== src/AgentRuns/Validate.antt =====
-- The validation and digest helpers of src/xpd_report_agent/api/agent_runs.py. `hashlib.sha256` and
-- `json.dumps` are parameters.
use Prim.Native.Char.{code}
use xpd_report_agent.Prelude.{
  arith, ◌≡◌, ℕ, String, Bool, true, not, ◌&&◌, ◌||◌, Option, none, some, List, [], ◌∷◌, ltb, ◌==◌,
  str_eq, if◌then◌else◌, any, take,
}
use Prim.Native.String.{◌++◌}
use xpd_report_agent.Prelude.Text.{chars, of_chars, len, strip}
use xpd_report_agent.Prelude.Json.{Json, Items, Fields}
use xpd_report_agent.AgentRuns.Run.{Result, ok, err, value_error, ◌>>=◌}

-- `hashlib.sha256(text.encode("utf-8")).hexdigest()` and
-- `json.dumps(value, ensure_ascii=False, sort_keys=True, separators=(",", ":"))`
pub record Codec : Type 0 where
  pub sha256_hex : String → String
  pub dumps : Json → String

abbrev pub idempotency_key_max_length : ℕ
idempotency_key_max_length = 255

unfoldable pub validate_idempotency_key : Option String → Result String
validate_idempotency_key none = err value_error
validate_idempotency_key (some value) =
    if str_eq value ""
    then err value_error
    else if ltb idempotency_key_max_length (len value)
    then err value_error
    else if any (λ c. ltb (code c) 0x21 || ltb 0x7E (code c)) (chars value)
    then err value_error
    else ok value

unfoldable pub validate_identity : String → Result String
validate_identity value =
    if str_eq value "" || ltb 512 (len value)
    then err value_error
    else if any (λ c. code c == 13 || code c == 10 || code c == 0) (chars value)
    then err value_error
    else ok value

-- What `json.dumps(..., allow_nan=False)` refuses, and what `_json_clone` returns for the rest.
unfoldable mutual
  pub serializable : Json → Bool
  serializable Json.null = true
  serializable (Json.bool b) = true
  serializable (Json.int n) = true
  serializable (Json.float r) = not (str_eq r "nan" || str_eq r "inf" || str_eq r "-inf")
  serializable (Json.str s) = true
  serializable (Json.arr xs) = serializable_items xs
  serializable (Json.obj fs) = serializable_fields fs

  pub serializable_items : Items → Bool
  serializable_items Items.nil = true
  serializable_items (Items.cons x xs) = serializable x && serializable_items xs

  pub serializable_fields : Fields → Bool
  serializable_fields Fields.end = true
  serializable_fields (Fields.field k v fs) = serializable v && serializable_fields fs

unfoldable pub json_clone : Json → Result Json
json_clone value = if serializable value then ok value else err value_error

-- `_request_digest`: the hash of the canonical JSON, and the normalised request
unfoldable pub request_digest : Codec → Json → Result (String × Json)
request_digest c (Json.obj fs) = do
  normalized ← json_clone (Json.obj fs)
  ok (c.sha256_hex (c.dumps normalized), normalized)
request_digest c _ = err value_error

-- `_answer_digest`
unfoldable pub answer_digest : Codec → String → Result (String × String)
answer_digest c answer =
    let normalized = strip answer in
    if str_eq normalized ""
    then err value_error
    else if ltb 2000 (len normalized)
    then err value_error
    else ok (c.sha256_hex normalized, normalized)

-- The JSON list of texts.
abbrev pub json_texts : List String → Items
json_texts [] = Items.nil
json_texts (s ∷ ss) = Items.cons (Json.str s) (json_texts ss)

unfoldable pub stable_run_id : Codec → String → String → String → Result String
stable_run_id c owner_scope session_id idempotency_key = do
  scope ← validate_identity owner_scope
  session ← validate_identity session_id
  key ← validate_idempotency_key (some idempotency_key)
  let canonical = c.dumps (Json.arr (json_texts ("xpd-agent-run-v1" ∷ scope ∷ session ∷ key ∷ [])))
  ok ("run_" ++ of_chars (take 32 (chars (c.sha256_hex canonical))))

-- An identity or a key that is accepted is returned unchanged.
pub validate_identity-eq : (s : String) {t : String} → validate_identity s ≡ ok t → t ≡ s
unfolding validate_identity
validate_identity-eq s h = ground arith

pub validate_idempotency_key-eq :
    (s : String) {t : String} → validate_idempotency_key (some s) ≡ ok t → t ≡ s
unfolding validate_idempotency_key
validate_idempotency_key-eq s h = ground arith

pub json_clone-eq : (v : Json) {w : Json} → json_clone v ≡ ok w → w ≡ v
unfolding json_clone
json_clone-eq v h = ground arith
