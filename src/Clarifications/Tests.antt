-- ===== src/Clarifications/Tests.antt =====
-- A small run of the registry of src/xpd_report_agent/runtime/hermes_clarify.py.
use xpd_report_agent.Prelude.{
  All, ℕ, ◌+◌, String, ◌≡◌, refl, ◌≢◌, true, some, List, [], ◌∷◌, arith, eq_iff,
}
use xpd_report_agent.Prelude.Text.{strip}
use xpd_report_agent.Prelude.Dict.{lookup, insert, remove}
use xpd_report_agent.Clarifications.Answers.{
  wait-answer_question, answer_question_once, answer_question-accepted,
}
use xpd_report_agent.Clarifications.Sessions.{
  Agrees, perform_all-Agrees, expire_session_lem, perform_isolated_session, waiting, waiting_all,
}
use xpd_report_agent.Clarifications.Calls.{
  Call, call_create, call_expire_session, call_wait, call_answer, perform, perform_all,
}
use xpd_report_agent.Clarifications.Registry.{
  answered, is_open, accept, PendingClarification, Registry, Question, created, create, discard,
  expire_session, outcome, wait_found, wait, reply_answered, Answer, answer_found, answer_question,
  offered_choices, clarification_id_of, pending_count,
}

program : Unit {0}
unfolding strip lookup insert remove created create discard expire_session outcome wait_found wait
    answer_found answer_question offered_choices clarification_id_of pending_count perform
    perform_all
program = tt

abbrev question : String → String → Question
question hex session = record {
  session_id = session;
  owner_scope = "o";
  question = " which shop? ";
  choices = some ("a " ∷ " " ∷ "b" ∷ []);
  timeout_seconds = 300;
  hex = hex;
  now = 10;
}

abbrev two : Registry
two = perform_all (call_create (question "1" "s") ∷ call_create (question "2" "t") ∷ []) []

abbrev reply : String → ℕ → Answer
reply text now = record {
  clarification_id = "clarify_1";
  session_id = "s";
  owner_scope = "o";
  text = text;
  now = now;
}

abbrev between : List Call
between = call_answer (reply "c" 12) ∷ call_expire_session "s" "o" ∷ call_wait "clarify_2" ∷ []

counts : pending_count 11 two ≡ 2
unfolding program
counts = refl

trims : (created (question "1" "s")).choices ≡ "a" ∷ "b" ∷ []
unfolding program
trims = refl

answer_question-accepted_example :
    (item : PendingClarification) × (lookup "clarify_1" two ≡ some item)
    × (is_open 11 item ≡ true)
    × (item.session_id ≡ "s")
    × (item.owner_scope ≡ "o")
    × (lookup "clarify_1" (answer_question (reply "b" 11) two).0 ≡ some (accept "b" item))
unfolding program
answer_question-accepted_example = answer_question-accepted (reply "b" 11) two refl

differ : ◌≢◌ {A = String} "clarify_2" "clarify_1"
differ e = ground (arith, eq_iff "clarify_2" "clarify_1")

wait-answer_question_example :
    (wait "clarify_1" (perform_all between (answer_question (reply "b" 11) two).0)).1
    ≡ (answered, some "b")
unfolding program
wait-answer_question_example =
    wait-answer_question (reply "b" 11) two between refl (tt, (tt, (differ, tt)))

answer_question_once_example :
    (answer_question (reply "d" 13) (perform_all between (answer_question (reply "b" 11) two).0)).1
    ≢ reply_answered
unfolding program
answer_question_once_example =
    answer_question_once (reply "b" 11) (reply "d" 13) two between refl refl (tt, (tt, (tt, tt)))

perform_all-Agrees_example : All Agrees (perform_all between two)
unfolding program
perform_all-Agrees_example = perform_all-Agrees between two ((refl, refl), ((refl, refl), tt))

expire_session_example :
    ((expire_session "s" "o" two).1 ≡ waiting "s" "o" two)
    × (waiting "s" "o" (expire_session "s" "o" two).0 ≡ 0)
    × (waiting_all (expire_session "s" "o" two).0 + (expire_session "s" "o" two).1
        ≡ waiting_all two)
expire_session_example = expire_session_lem "s" "o" two

perform_isolated_session_example :
    lookup "clarify_1" (perform (call_expire_session "t" "o") two)
    ≡ some (created (question "1" "s"))
unfolding program
perform_isolated_session_example =
    perform_isolated_session (call_expire_session "t" "o") "clarify_1" (created (question "1" "s"))
      two refl refl
