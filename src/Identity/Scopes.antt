-- ===== src/Identity/Scopes.antt =====
-- Owner scopes and session ids of src/xpd_report_agent/api/session_service.py, with the identity mode
-- and the owner directories of src/xpd_report_agent/memory_paths.py. `hmac` is the hex digest of
-- HMAC-SHA256 under a secret.
use Prim.Native.Char.{Char, code}
use xpd_report_agent.Prelude.{
  any, take, drop, ℕ, String, Bool, false, not, ◌&&◌, ◌||◌, Option, none, some, List, [], ◌∷◌, ◌++◌,
  leb, ◌==◌, str_eq, if◌then◌else◌, length,
}
use xpd_report_agent.Prelude.Text.{chars, of_chars, append, len, strip, is_space}
use xpd_report_agent.Prelude.Patterns.{is_owner_scope, is_hex_block, behind}
use xpd_report_agent.Prelude.Result.{Outcome, ok, err, guard, ◌>>=◌, ◌>>◌}

-- An HTTP error by its status, or Python's ValueError.
pub data IdentityError : Type 0 where
  http_error : ℕ → IdentityError
  value_error : IdentityError

abbrev pub Identified {ℓ} : Type ℓ → Type ℓ
Identified A = Outcome IdentityError A

-- `value or default`
abbrev text_or : Option String → String → String
text_or none d = d
text_or (some s) d = if str_eq s "" then d else s

-- The two variables of the environment.
unfoldable pub session_signing_secret : Option String → String → Identified String
session_signing_secret secret gateway_key = do
  let value = text_or secret gateway_key
  guard (not (str_eq value "")) (http_error 500)
  ok value

abbrev pub session_key_min_length : ℕ
session_key_min_length = 24

abbrev pub session_key_max_length : ℕ
session_key_max_length = 256

abbrev pub user_id_max_length : ℕ
user_id_max_length = 128

-- `[\r\n\x00]`
abbrev is_break : Char → Bool
is_break c = code c == 13 || code c == 10 || code c == 0

unfoldable pub validate_session_key : Option String → Identified String
validate_session_key session_key = do
  let value = strip (text_or session_key "")
  guard (leb session_key_min_length (len value) && leb (len value) session_key_max_length)
      (http_error 401)
  guard (not (any is_break (chars value))) (http_error 401)
  ok value

pub data IdentityMode : Type 0 where
  by_session_key by_user_id : IdentityMode

-- `lower` is Python's `str.lower`.
unfoldable pub configured_identity_mode : (String → String) → Option String → String
configured_identity_mode lower none = lower (strip "session_key")
configured_identity_mode lower (some mode) = lower (strip mode)

unfoldable pub identity_mode : (String → String) → Option String → Identified IdentityMode
identity_mode lower setting =
    let mode = configured_identity_mode lower setting in
    if str_eq mode "session_key"
    then ok by_session_key
    else if str_eq mode "user_id"
    then ok by_user_id
    else err (http_error 500)

-- `[\s\x00-\x1f\x7f]`
abbrev is_space_or_control : Char → Bool
is_space_or_control c = is_space (code c) || leb (code c) 31 || code c == 127

unfoldable pub validate_user_id : Option String → Identified String
validate_user_id user_id = do
  let value = strip (text_or user_id "")
  guard (not (str_eq value "") && leb (len value) user_id_max_length) (http_error 401)
  guard (not (any is_space_or_control (chars value))) (http_error 401)
  ok value

-- `hmac.new(...).hexdigest()[:20]`
unfoldable pub owner_scope : (String → String → String) → String → String → String
owner_scope hmac secret session_key = of_chars (take 20 (chars (hmac secret session_key)))

unfoldable pub user_owner_scope :
    (String → String → String) → String → Option String → Identified String
user_owner_scope hmac secret user_id = do
  value ← validate_user_id user_id
  ok (owner_scope hmac secret (append "user-id:" value))

-- The secret is read after the user id or the session key has been checked.
unfoldable pub resolve_owner_scope :
    (String → String → String)
    → Identified String
    → Identified IdentityMode
    → Option String
    → Option String
    → Identified String
resolve_owner_scope hmac signing mode session_key user_id = do
  m ← mode
  elim m [
    | by_user_id ↦ do
      _ ← validate_user_id user_id
      secret ← signing
      user_owner_scope hmac secret user_id
    | by_session_key ↦ do
      value ← validate_session_key session_key
      secret ← signing
      ok (owner_scope hmac secret value)
  ]

-- `token` is the random hex text.
unfoldable pub new_session_id : String → String → String
new_session_id scope token = append "xpd_" (append scope (append "_" token))

unfoldable pub new_reflection_session_id : String → String → String
new_reflection_session_id scope token = append "xpd_" (append scope (append "_reflection_" token))

-- `session_id[:len(expected)] == expected`
unfoldable pub session_belongs_to_scope : String → String → Bool
session_belongs_to_scope session_id scope =
    let expected = append "xpd_" (append scope "_") in
    str_eq (of_chars (take (len expected) (chars session_id))) expected

-- `_.+` in full, where `.` is any character but a line feed
abbrev pub is_rest : List Char → Bool
is_rest [] = false
is_rest (c ∷ s) = code c == b'_' && leb 1 (length s) && not (any (λ d. code d == 10) s)

-- `xpd_([0-9a-f]{20})_.+` in full: group 1
unfoldable pub scope_from_session_id : String → Option String
scope_from_session_id s = elim (behind (chars "xpd_") (chars s)) [
  | none ↦ none
  | some t ↦ if is_hex_block 20 t && is_rest (drop 20 t) then some (of_chars (take 20 t)) else none
]

unfoldable pub require_owned_session : String → String → Identified (Unit {0})
require_owned_session session_id scope =
    guard (session_belongs_to_scope session_id scope) (http_error 404)

unfoldable pub validate_owner_scope : Option String → Identified String
validate_owner_scope scope = do
  let value = text_or scope ""
  guard (is_owner_scope value) value_error
  ok value

-- `memories_root() / "users" / scope`, as the parts of the path
unfoldable pub user_memory_dir : List String → String → Identified (List String)
user_memory_dir root scope = do
  safe ← validate_owner_scope (some scope)
  ok (root ++ "users" ∷ safe ∷ [])
