-- ===== src/Clarifications/Calls.antt =====
-- A call of the registry of src/xpd_report_agent/runtime/hermes_clarify.py as data, and sequences of
-- calls. Each holds the lock from its first read to its last write.
use xpd_report_agent.Prelude.{String, List, [], ◌∷◌}
use xpd_report_agent.Clarifications.Registry.{
  Registry, Question, Answer, create, discard, expire_session, wait, answer_question,
}

pub data Call : Type 0 where
  call_create : Question → Call
  call_discard : String → Call
  call_expire_session : String → String → Call
  call_wait : String → Call
  call_answer : Answer → Call

unfoldable pub perform : Call → Registry → Registry
perform (call_create q) d = (create q d).0
perform (call_discard clarification_id) d = (discard clarification_id d).0
perform (call_expire_session session_id owner_scope) d = (expire_session session_id owner_scope d).0
perform (call_wait clarification_id) d = (wait clarification_id d).0
perform (call_answer a) d = (answer_question a d).0

unfoldable pub perform_all : List Call → Registry → Registry
perform_all [] d = d
perform_all (c ∷ cs) d = perform_all cs (perform c d)
