-- ===== src/ServiceAuth/Config.antt =====
-- The configuration of service authentication, src/xpd_report_agent/api/service_auth.py. `lower` is
-- Python's `str.lower`.
use xpd_report_agent.Prelude.{
  any, String, Bool, true, false, not, ◌&&◌, ◌||◌, Option, none, some, List, [], ◌∷◌, ◌==◌, str_eq,
  if◌then◌else◌,
}
use Prim.Native.Char.{Char, code}
use xpd_report_agent.Prelude.Text.{chars, strip, is_space}
use xpd_report_agent.Prelude.Result.{Outcome, ok, err, guard, ◌>>=◌, ◌>>◌}

-- `ServiceAuthConfigurationError`, by its reason: a variable that is no boolean, a key with
-- whitespace, a key with other forbidden characters, or no key where one is required.
pub data ConfigurationError : Type 0 where
  not_boolean : String → ConfigurationError
  key_has_whitespace key_has_control key_required : ConfigurationError

abbrev pub Configured {ℓ} : Type ℓ → Type ℓ
Configured A = Outcome ConfigurationError A

pub record ServiceAuthConfig : Type 0 where
  pub enabled : Bool
  pub api_key : Option String

-- The variables of the environment that the module reads.
pub record Environment : Type 0 where
  pub service_auth_enabled : Option String
  pub service_api_key : Option String
  pub launch_managed : Option String

abbrev is_one_of : List String → String → Bool
is_one_of names s = any (str_eq s) names

-- `_TRUE_VALUES` and `_FALSE_VALUES`
abbrev pub true_values : List String
true_values = "1" ∷ "true" ∷ "yes" ∷ "on" ∷ []

abbrev pub false_values : List String
false_values = "0" ∷ "false" ∷ "no" ∷ "off" ∷ []

unfoldable pub configured_bool : (String → String) → String → Option String → Bool → Configured Bool
configured_bool lower name none default = ok default
configured_bool lower name (some raw) default =
    let normalized = lower (strip raw) in
    if is_one_of true_values normalized
    then ok true
    else if is_one_of false_values normalized
    then ok false
    else err (not_boolean name)

unfoldable pub managed_runtime_enabled : (String → String) → Environment → Configured Bool
managed_runtime_enabled lower e = configured_bool lower "LAUNCH_MANAGED" e.launch_managed false

unfoldable pub service_auth_enabled : (String → String) → Environment → Configured Bool
service_auth_enabled lower e = elim e.service_auth_enabled [
  | none ↦ managed_runtime_enabled lower e
  | some raw ↦ configured_bool lower "XPD_SERVICE_AUTH_ENABLED" (some raw) false
]

abbrev pub has_space : String → Bool
has_space s = any (λ c. is_space (code c)) (chars s)

-- `character in "\r\n\x00"`
abbrev is_forbidden : Char → Bool
is_forbidden c = code c == 13 || code c == 10 || code c == 0

unfoldable pub configured_api_key : Option String → Configured (Option String)
configured_api_key none = ok none
configured_api_key (some raw) =
    if str_eq raw ""
    then ok none
    else if not (str_eq raw (strip raw)) || has_space raw
    then err key_has_whitespace
    else if any is_forbidden (chars raw)
    then err key_has_control
    else ok (some raw)

abbrev pub is_missing : Option String → Bool
is_missing none = true
is_missing (some k) = str_eq k ""

unfoldable pub service_auth_config : (String → String) → Environment → Configured ServiceAuthConfig
service_auth_config lower e = do
  enabled ← service_auth_enabled lower e
  api_key ← configured_api_key e.service_api_key
  guard (not (enabled && is_missing api_key)) key_required
  ok (record { enabled = enabled; api_key = api_key })
