-- ===== src/ServiceAuth/Bearer.antt =====
-- The check of an `Authorization` header, src/xpd_report_agent/api/service_auth.py. `casefold` is
-- Python's `str.casefold`. A header that is no text is none.
use xpd_report_agent.Prelude.{
  String, Bool, true, false, not, ◌&&◌, ◌||◌, Option, none, some, List, [], ◌∷◌, ◌==◌, str_eq,
  if◌then◌else◌,
}
use Prim.Native.Char.{Char, code}
use xpd_report_agent.Prelude.Text.{chars, of_chars, strip, append}
use xpd_report_agent.Prelude.Result.{Outcome, ok, err}
use xpd_report_agent.ServiceAuth.Config.{
  ConfigurationError, Configured, ServiceAuthConfig, Environment, service_auth_enabled,
  service_auth_config, has_space,
}

-- `text.partition(" ")`, if the text has a space: what stands before the first and behind it
unfoldable pub partition_space : List Char → Option (List Char × List Char)
partition_space [] = none
partition_space (c ∷ s) =
    if code c == 32
    then some ([], s)
    else elim (partition_space s) [ none ↦ none | some (before, after) ↦ some (c ∷ before, after) ]

abbrev pub token_of : (String → String) → Option (List Char × List Char) → Option String
token_of casefold none = none
token_of casefold (some (scheme, rest)) =
    let token = of_chars rest in
    if not (str_eq (casefold (of_chars scheme)) (casefold "Bearer"))
    then none
    else if str_eq token "" || not (str_eq token (strip token)) || has_space token
    then none
    else some token

unfoldable pub bearer_token : (String → String) → Option String → Option String
bearer_token casefold none = none
bearer_token casefold (some authorization) =
    token_of casefold (partition_space (chars (strip authorization)))

abbrev pub is_key : Option String → String → Bool
is_key none expected = false
is_key (some token) expected = not (str_eq expected "") && str_eq token expected

unfoldable pub bearer_authorization_matches : (String → String) → Option String → String → Bool
bearer_authorization_matches casefold authorization expected_api_key =
    is_key (bearer_token casefold authorization) expected_api_key

-- The two exceptions, with the statuses 503 and 401
pub data AuthError : Type 0 where
  misconfigured : ConfigurationError → AuthError
  denied : AuthError

abbrev pub key_or_empty : Option String → String
key_or_empty none = ""
key_or_empty (some k) = k

-- `authorize_service_request` behind its configuration
unfoldable pub authorize_with :
    (String → String) → Option String → Configured ServiceAuthConfig → Outcome AuthError (Unit {0})
authorize_with casefold authorization (err e) = err (misconfigured e)
authorize_with casefold authorization (ok config) =
    if not config.enabled
    then ok tt
    else if bearer_authorization_matches casefold authorization (key_or_empty config.api_key)
    then ok tt
    else err denied

unfoldable pub authorize_service_request :
    (String → String)
    → (String → String)
    → Environment
    → Option String
    → Outcome AuthError (Unit {0})
authorize_service_request lower casefold e authorization =
    authorize_with casefold authorization (service_auth_config lower e)

-- The scheme and the credentials that the framework has split off a header
unfoldable pub require_service_auth :
    (String → String)
    → (String → String)
    → Environment
    → Option (String × String)
    → Outcome AuthError (Unit {0})
require_service_auth lower casefold e none = authorize_service_request lower casefold e none
require_service_auth lower casefold e (some (scheme, credentials)) =
    authorize_service_request lower casefold e (some (append scheme (append " " credentials)))

pub record Health : Type 0 where
  pub ok : Bool
  pub enabled : Option Bool
  pub configured : Bool
  pub error : Option ConfigurationError

abbrev pub is_given : Option String → Bool
is_given none = false
is_given (some k) = true

abbrev if_known : Configured Bool → Option Bool
if_known (err e) = none
if_known (Outcome.ok b) = some b

-- `service_auth_health` behind its configuration
unfoldable pub health_of : Configured Bool → Configured ServiceAuthConfig → Health
health_of enabled (err e) = record {
  ok = false;
  enabled = if_known enabled;
  configured = false;
  error = some e;
}
health_of enabled (Outcome.ok config) = record {
  ok = true;
  enabled = some config.enabled;
  configured = is_given config.api_key;
  error = none;
}

unfoldable pub service_auth_health : (String → String) → Environment → Health
service_auth_health lower e = health_of (service_auth_enabled lower e) (service_auth_config lower e)
