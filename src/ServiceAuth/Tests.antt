-- ===== src/ServiceAuth/Tests.antt =====
-- Tests of ServiceAuth on concrete requests.
use xpd_report_agent.Prelude.{◌↔◌, String, ◌≡◌, refl, true, none, some}
use Prim.Native.String.{String}
use xpd_report_agent.Prelude.Text.{strip, append}
use xpd_report_agent.Prelude.Result.{ok, err}
use xpd_report_agent.ServiceAuth.Config.{
  Environment, ServiceAuthConfig, configured_bool, managed_runtime_enabled, service_auth_enabled,
  configured_api_key, service_auth_config, key_required,
}
use xpd_report_agent.ServiceAuth.Bearer.{
  partition_space, bearer_token, bearer_authorization_matches, authorize_with,
  authorize_service_request, service_auth_health, health_of, denied, misconfigured,
}
use xpd_report_agent.ServiceAuth.Access.{authorize_service_request_enabled}

program : Unit {0}
unfolding configured_bool managed_runtime_enabled service_auth_enabled configured_api_key
    service_auth_config strip partition_space bearer_token bearer_authorization_matches
    authorize_with authorize_service_request service_auth_health health_of
program = tt

abbrev same : String → String
same s = s

abbrev environment : Environment
environment = record {
  service_auth_enabled = none;
  service_api_key = some "k3y";
  launch_managed = some " on ";
}

abbrev config : ServiceAuthConfig
config = record { enabled = true; api_key = some "k3y" }

-- A token with a trailing word is refused.
two_words : authorize_service_request same same environment (some "Bearer k3y x") ≡ err denied
unfolding program
two_words = refl

no_key :
    authorize_service_request same same (record environment { service_api_key = none }) none
    ≡ err (misconfigured key_required)
unfolding program
no_key = refl

unknown_flag :
    (service_auth_health same (record environment { launch_managed = some "maybe" })).enabled ≡ none
unfolding program
unknown_flag = refl

authorize_service_request_enabled_example :
    (k : String) × (config.api_key ≡ some k)
    × (authorize_service_request same same environment (some (append "Bearer " k)) ≡ ok tt)
    × (authorize_service_request same same environment none ≡ err denied)
    × ((authorize_service_request same same environment (some "bearer k3y") ≡ ok tt)
        ↔ (bearer_token same (some "bearer k3y") ≡ some k))
unfolding program
authorize_service_request_enabled_example =
    authorize_service_request_enabled same same environment {config = config} refl refl
      (some "bearer k3y")
