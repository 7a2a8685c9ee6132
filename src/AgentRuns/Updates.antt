-- ===== src/AgentRuns/Updates.antt =====
-- What each operation of src/xpd_report_agent/api/agent_runs.py does to one stored run: the
-- `update` functions, and the bodies of `claim_pending` and `resume_with_input`.
use xpd_report_agent.Prelude.{
  ℕ, ◌+◌, String, Bool, false, not, ◌||◌, Option, none, some, List, [], map, leb, str_eq,
  if◌then◌else◌, filter, take,
}
use xpd_report_agent.Prelude.Text.{strip}
use xpd_report_agent.Prelude.Dict.{lookup, insert}
use xpd_report_agent.Prelude.Json.{Json}
use xpd_report_agent.AgentRuns.Run.{
  pending, running, waiting_input, succeeded, failed, is_resumable, is_waiting, is_succeeded,
  is_failed, Clarification, Receipt, Run, Result, ok, err, value_error, invalid_transition,
  retry_not_allowed, input_not_allowed, ◌>>=◌, ◌>>◌, guard, checkpoint_or_empty, receipts_or_empty,
  run_retry_attempt_count,
}
use xpd_report_agent.AgentRuns.File.{Env}

-- `value or default` on an optional text
abbrev pub text_or : Option String → String → String
text_or none d = d
text_or (some s) d = if str_eq s "" then d else s

-- The assignments that `mark_running` and `claim_pending` share.
abbrev pub started : Env → Run → Run
started e r = record r {
  status = running;
  attempt_count = r.attempt_count + 1;
  error = Json.null;
  completed_at = none;
  started_at = some (text_or r.started_at (e.clock 0));
}

unfoldable pub running_update : Env → Run → Result Run
running_update e r = do guard (is_resumable r.status) invalid_transition; ok (started e r)

unfoldable pub succeeded_update : Env → Json → Run → Result Run
succeeded_update e result r = if is_succeeded r.status then ok r else do
  guard (is_resumable r.status) invalid_transition
  ok (record r {
    status = succeeded;
    result = result;
    clarification = none;
    error = Json.null;
    completed_at = some (e.clock 0);
  })

unfoldable pub failed_update : Env → Json → Run → Result Run
failed_update e error r = if is_failed r.status then ok r else do
  guard (is_resumable r.status) invalid_transition
  ok (record r {
    status = failed;
    error = error;
    result = Json.null;
    clarification = none;
    completed_at = some (e.clock 0);
  })

-- The assignments that put a run back to `pending`.
abbrev pub requeued : Run → Run
requeued r = record r {
  status = pending;
  error = Json.null;
  result = Json.null;
  clarification = none;
  completed_at = none;
}

unfoldable pub retry_update : ℕ → Run → Result Run
retry_update max_attempts r = do
  guard (is_failed r.status) retry_not_allowed
  guard (not (leb max_attempts (run_retry_attempt_count r))) retry_not_allowed
  ok (requeued r)

-- `clarification.get("choices")`: missing or null, a list of texts, or something else
pub data Choices : Type 0 where
  absent malformed : Choices
  listed : List String → Choices

pub record ClarificationInput : Type 0 where
  pub clarification_id : String
  pub question : String
  pub choices : Choices
  pub requested_at : Option String

-- `[str(choice).strip() for choice in raw_choices if str(choice).strip()][:4]`
unfoldable pub normalized_choices : List String → List String
normalized_choices raw = take 4 (filter (λ s. not (str_eq s "")) (map strip raw))

abbrev choice_list : Choices → Result (List String)
choice_list absent = ok []
choice_list malformed = err value_error
choice_list (listed raw) = ok (normalized_choices raw)

-- The part of `mark_waiting_input` above its `update`.
unfoldable pub normalize_clarification : Env → ClarificationInput → Result Clarification
normalize_clarification e c = do
  let clarification_id = strip c.clarification_id
  let question = strip c.question
  guard (not (str_eq clarification_id "" || str_eq question "")) value_error
  choices ← choice_list c.choices
  ok (record {
    clarification_id = clarification_id;
    question = question;
    choices = choices;
    requested_at = text_or c.requested_at (e.clock 0);
  })

abbrev pub same_clarification : Option Clarification → String → Bool
same_clarification none clarification_id = false
same_clarification (some c) clarification_id = str_eq c.clarification_id clarification_id

unfoldable pub waiting_update : Clarification → Run → Result Run
waiting_update c r =
    if is_waiting r.status
    then (if same_clarification r.clarification c.clarification_id
        then ok r
        else err invalid_transition)
    else do
      guard (is_resumable r.status) invalid_transition
      let checkpoint = checkpoint_or_empty r.checkpoint
      ok (record r {
        checkpoint =
            some (record checkpoint {
              upstream_submission_started = some false;
              pending_input = none;
            });
        status = waiting_input;
        clarification = some c;
        error = Json.null;
        result = Json.null;
        completed_at = none;
      })

-- The fields that a call of `set_checkpoint` names.
pub record CheckpointFields : Type 0 where
  pub baseline_message_count : Option ℕ
  pub artifact_ids : Option Json
  pub upstream_submission_started : Option Bool
  pub retry_epoch_start_attempt : Option ℕ

abbrev given {ℓ} : {A : Type ℓ} → Option A → Option A → Option A
given none old = old
given (some new) old = some new

-- `set_checkpoint` takes any fields; these four are the ones that the store and its callers use.
-- Others would stand beside them and are left out.
unfoldable pub checkpoint_update : CheckpointFields → Run → Result Run
checkpoint_update f r =
    let c = checkpoint_or_empty r.checkpoint in
    ok (record r {
      checkpoint = some (record c {
        baseline_message_count = given f.baseline_message_count c.baseline_message_count;
        artifact_ids = given f.artifact_ids c.artifact_ids;
        upstream_submission_started =
            given f.upstream_submission_started c.upstream_submission_started;
        retry_epoch_start_attempt = given f.retry_epoch_start_attempt c.retry_epoch_start_attempt;
      });
    })

abbrev pub receipt_of : Run → String → Option Receipt
receipt_of r key = lookup key (receipts_or_empty (checkpoint_or_empty r.checkpoint).input_receipts)

-- The assignments of `resume_with_input` for one accepted answer.
abbrev pub resumed : Env → String → String → String → ℕ → Json → Clarification → Run → Run
resumed e key answer_hash answer baseline artifact_ids c r =
    let checkpoint = checkpoint_or_empty r.checkpoint in
    record (requeued r) {
      checkpoint = some (record checkpoint {
        baseline_message_count = some baseline;
        artifact_ids = some artifact_ids;
        upstream_submission_started = some false;
        retry_epoch_start_attempt = some r.attempt_count;
        input_receipts = some (
            insert key
              (record {
                clarification_id = c.clarification_id;
                answer_hash = answer_hash;
                accepted_at = e.clock 0;
              })
              (receipts_or_empty checkpoint.input_receipts));
        pending_input = some (record {
          clarification_id = c.clarification_id;
          question = strip c.question;
          answer = answer;
        });
      });
    }

-- The checks of `resume_with_input` behind the receipt, on a run without one.
unfoldable pub resume_update : Env → String → String → String → ℕ → Json → Run → Result Run
resume_update e key answer_hash answer baseline artifact_ids r = do
  guard (is_waiting r.status) input_not_allowed
  elim r.clarification [
    | none ↦ err invalid_transition
    | some c ↦
        if str_eq c.clarification_id "" || str_eq (strip c.question) ""
        then err invalid_transition
        else ok (resumed e key answer_hash answer baseline artifact_ids c r)
  ]
