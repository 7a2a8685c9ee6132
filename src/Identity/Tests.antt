-- ===== src/Identity/Tests.antt =====
-- Small runs of src/xpd_report_agent/api/session_service.py.
use xpd_report_agent.Prelude.{String, ◌≡◌, refl, true, false, none, some, [], ◌∷◌}
use mathlib.Core.Logic.{◌↔◌}
use xpd_report_agent.Prelude.Json.{Json}
use xpd_report_agent.Prelude.Text.{strip}
use xpd_report_agent.Prelude.Result.{err}
use xpd_report_agent.Prelude.Patterns.{owner_scope_from_session_id, is_owner_scope}
use xpd_report_agent.Identity.Scopes.{
  new_session_id, session_belongs_to_scope, scope_from_session_id, http_error, validate_session_key,
  validate_user_id, require_owned_session,
}
use xpd_report_agent.Identity.Messages.{Message, text, count_completed_turns, completed_turns}
use xpd_report_agent.Identity.Ownership.{new_session_id_owner}

program : Unit {0}
unfolding strip owner_scope_from_session_id is_owner_scope new_session_id session_belongs_to_scope
    scope_from_session_id validate_session_key validate_user_id require_owned_session
    count_completed_turns completed_turns
program = tt

abbrev scope : String
scope = "0123456789abcdef0123"

short_key : validate_session_key (some " short ") ≡ err (http_error 401)
unfolding program
short_key = refl

spaced_user : validate_user_id (some "a b") ≡ err (http_error 401)
unfolding program
spaced_user = refl

foreign_session : require_owned_session "xpd_ffffffffffffffffffff_1" scope ≡ err (http_error 404)
unfolding program
foreign_session = refl

abbrev says : String → String → Message
says role words = record {
  role = role;
  content = text words;
  has_tool_calls = false;
  reasoning = none;
  tool_name = Json.null;
  timestamp = Json.null;
  finish_reason = Json.null;
}

one_turn :
    count_completed_turns
      (says "user" "a" ∷ says "assistant" " " ∷ says "assistant" "b" ∷ says "assistant" "c" ∷ [])
    ≡ 1
unfolding program
one_turn = refl

new_session_id_owner_example :
    (owner_scope_from_session_id (new_session_id scope "1f") ≡ some scope)
    × (scope_from_session_id (new_session_id scope "1f") ≡ some scope)
    × ((session_belongs_to_scope (new_session_id scope "1f") "ffffffffffffffffffff" ≡ true)
        ↔ ("ffffffffffffffffffff" ≡ scope))
unfolding program
new_session_id_owner_example = new_session_id_owner scope "1f" refl refl "ffffffffffffffffffff" refl
