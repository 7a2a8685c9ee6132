-- ===== src/Reflections/Queue.antt =====
-- The jobs of `ReflectionQueue` (src/xpd_report_agent/api/reflections.py), their file, and what each
-- section that holds the lock does to one job. A value of `jobs` is a job, and a file of another
-- form is `unusable`, which `_load` reads as no jobs.
use xpd_report_agent.Prelude.{
  take, ℕ, ◌+◌, String, Bool, true, false, not, ◌&&◌, ◌||◌, Option, none, some, [], leb,
  if◌then◌else◌,
}
use xpd_report_agent.Prelude.Text.{chars, of_chars}
use xpd_report_agent.Prelude.Dict.{Dict}
use xpd_report_agent.Prelude.Json.{Json}

pub data Status : Type 0 where
  pending running succeeded failed : Status
  other : String → Status

abbrev pub is_pending : Status → Bool
is_pending pending = true
is_pending _ = false

abbrev pub is_running : Status → Bool
is_running running = true
is_running _ = false

abbrev pub is_succeeded : Status → Bool
is_succeeded succeeded = true
is_succeeded _ = false

abbrev pub is_failed : Status → Bool
is_failed failed = true
is_failed _ = false

pub record Job : Type 0 where
  pub session_id : String
  pub owner_scope : String
  pub turn_end : ℕ
  pub status : Status
  pub attempt_count : ℕ
  pub end_reason : String
  pub error_summary : Option String
  pub retryable : Option Bool
  pub outcome_unknown : Bool
  pub structured_result : Json
  pub created_at : String
  pub completed_at : Option String

pub data JobFile : Type 0 where
  unusable : JobFile
  stored : Dict Job → JobFile

unfoldable pub load_jobs : JobFile → Dict Job
load_jobs unusable = []
load_jobs (stored jobs) = jobs

-- `bool(job.get("retryable"))`
abbrev pub is_set : Option Bool → Bool
is_set none = false
is_set (some b) = b

unfoldable pub can_auto_run : ℕ → Job → Bool
can_auto_run max_attempts j =
    if leb max_attempts j.attempt_count
    then false
    else is_pending j.status || (is_failed j.status && is_set j.retryable && not j.outcome_unknown)

-- The arguments of `schedule` but `turn_end`, with the clock.
pub record Request : Type 0 where
  pub session_id : String
  pub owner_scope : String
  pub end_reason : String
  pub utc_now : String

unfoldable pub new_job : Request → ℕ → Job
new_job q turn_end = record {
  session_id = q.session_id;
  owner_scope = q.owner_scope;
  turn_end = turn_end;
  status = pending;
  attempt_count = 0;
  end_reason = q.end_reason;
  error_summary = none;
  retryable = none;
  outcome_unknown = false;
  structured_result = Json.null;
  created_at = q.utc_now;
  completed_at = none;
}

-- The checks of `_run` before an attempt.
unfoldable pub may_begin : ℕ → Job → Bool
may_begin max_attempts j =
    not (is_succeeded j.status)
    && not (is_failed j.status && not (can_auto_run max_attempts j))
    && not (leb max_attempts j.attempt_count)

unfoldable pub begun : Job → Job
begun j = record j {
  status = running;
  attempt_count = j.attempt_count + 1;
  error_summary = none;
  retryable = none;
  outcome_unknown = false;
}

-- What `_retry_flags` and `str` read off an exception.
pub record Failure : Type 0 where
  pub summary : String
  pub retryable : Bool
  pub outcome_unknown : Bool

unfoldable pub failed_with : Failure → Job → Job
failed_with e j = record j {
  status = failed;
  error_summary = some (of_chars (take 500 (chars e.summary)));
  retryable = some e.retryable;
  outcome_unknown = e.outcome_unknown;
}

-- The task goes on to another attempt.
unfoldable pub goes_on : ℕ → Failure → Job → Bool
goes_on max_attempts e j =
    not (leb max_attempts j.attempt_count || not e.retryable || e.outcome_unknown)

unfoldable pub succeeded_with : String → Json → Job → Job
succeeded_with utc_now result j = record j {
  status = succeeded;
  retryable = some false;
  outcome_unknown = false;
  structured_result = result;
  completed_at = some utc_now;
}

-- `resume_pending` on one job: a run that was cut off is not repeated.
unfoldable pub closed : Job → Job
closed j =
    if is_running j.status
    then record j {
      status = failed;
      retryable = some false;
      outcome_unknown = true;
      error_summary =
          some "Reflection was interrupted with an unknown upstream outcome; it was not replayed.";
    }
    else j

unfoldable pub may_retry : Job → Bool
may_retry j = not (is_succeeded j.status) && not j.outcome_unknown

unfoldable pub retried : Job → Job
retried j = record j {
  status = pending;
  attempt_count = 0;
  error_summary = none;
  retryable = none;
  outcome_unknown = false;
}
