-- ===== src/Upstream/Tests.antt =====
-- Tests of Upstream on concrete exchanges.
use xpd_report_agent.Prelude.{
  ℕ, ◌≤◌, ◌≡◌, refl, ◌≢◌, true, false, some, [], ◌∷◌, ltb, ◌==◌, if◌then◌else◌, length,
}
use xpd_report_agent.Prelude.Json.{Json, Fields}
use xpd_report_agent.Prelude.Env.{unset}
use xpd_report_agent.Prelude.Result.{ok, err}
use xpd_report_agent.Upstream.Request.{
  Response, Exchange, connect_error, timeout, response, no_response, Call, hermes_connect_attempts,
  safe_http_retry, failure_of, raise_upstream, after, attempts_from, read_response, exchanges_of,
  hermes_json,
}
use xpd_report_agent.Upstream.Sends.{Tells, connections, exchanges_of-Tells, exchanges_of-ends}

program : Unit {0}
unfolding hermes_connect_attempts safe_http_retry failure_of raise_upstream after attempts_from
    read_response exchanges_of hermes_json
program = tt

abbrev post : Call
post = record { action = "submit"; node_id = "a"; safe_retry = false }

abbrev reply : ℕ → Response
reply n = record {
  status_code = n;
  is_success = ltb n 300;
  content = "{}";
  json = some (Json.obj Fields.end);
}

-- No connection at first, then a time-out
abbrev lost : ℕ → Exchange
lost n = if n == 1 then connect_error else timeout

abbrev busy : ℕ → Exchange
busy n = if n == 3 then response (reply 200) else response (reply 503)

post_twice : (exchanges_of post lost 3).exchanges ≡ connect_error ∷ timeout ∷ []
unfolding program
post_twice = refl

get_until : hermes_json (record post { safe_retry = true }) busy unset ≡ ok (Json.obj Fields.end)
unfolding program
get_until = refl

exchanges_of-Tells_example :
    Tells (connections (exchanges_of post lost 3).exchanges) (exchanges_of post lost 3).result
exchanges_of-Tells_example = exchanges_of-Tells post lost refl 3

exchanges_of-ends_example :
    (1 ≤ length (exchanges_of post busy 3).exchanges)
    × (length (exchanges_of post busy 3).exchanges ≤ 3)
    × (length (exchanges_of post busy 3).exchanges ≤ 5)
    × ((exchanges_of post busy 3).result ≢ err no_response)
unfolding program
exchanges_of-ends_example = exchanges_of-ends post busy unset
