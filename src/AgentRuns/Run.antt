-- ===== src/AgentRuns/Run.antt =====
-- The records that agent-runs.json holds, and the errors of the store
-- (src/xpd_report_agent/api/agent_runs.py).
use xpd_report_agent.Prelude.{
  ℕ, ◌-◌, String, Bool, true, false, not, ◌&&◌, Option, none, some, List, [], min, str_eq,
}
use xpd_report_agent.Prelude.Result.{Outcome}
use xpd_report_agent.Prelude.Dict.{Dict}
use xpd_report_agent.Prelude.Json.{Json}
pub use xpd_report_agent.Prelude.Result.{
  ok, err, ◌>>=◌, ◌>>◌, guard, >>=-eq-ok, bind_elim, Result-cases,
}

-- `other` is a status string that the store never writes.
pub data Status : Type 0 where
  pending running waiting_input succeeded failed : Status
  other : String → Status

-- `status in RESUMABLE_STATUSES`
abbrev pub is_resumable : Status → Bool
is_resumable pending = true
is_resumable running = true
is_resumable _ = false

abbrev pub is_pending : Status → Bool
is_pending pending = true
is_pending _ = false

abbrev pub is_running : Status → Bool
is_running running = true
is_running _ = false

abbrev pub is_waiting : Status → Bool
is_waiting waiting_input = true
is_waiting _ = false

abbrev pub is_succeeded : Status → Bool
is_succeeded succeeded = true
is_succeeded _ = false

abbrev pub is_failed : Status → Bool
is_failed failed = true
is_failed _ = false

pub record Clarification : Type 0 where
  pub clarification_id : String
  pub question : String
  pub choices : List String
  pub requested_at : String

-- One accepted clarification answer, kept under its idempotency key.
pub record Receipt : Type 0 where
  pub clarification_id : String
  pub answer_hash : String
  pub accepted_at : String

pub record PendingInput : Type 0 where
  pub clarification_id : String
  pub question : String
  pub answer : String

-- `none` is a key that is not in the checkpoint.
pub record Checkpoint : Type 0 where
  pub baseline_message_count : Option ℕ
  pub artifact_ids : Option Json
  pub upstream_submission_started : Option Bool
  pub retry_epoch_start_attempt : Option ℕ
  pub input_receipts : Option (Dict Receipt)
  pub pending_input : Option PendingInput

-- `checkpoint` is `none` where the stored value is no JSON object.
pub record Run : Type 0 where
  pub run_id : String
  pub request_id : String
  pub idempotency_key : String
  pub owner_scope : String
  pub session_id : String
  pub request_hash : String
  pub request : Json
  pub checkpoint : Option Checkpoint
  pub status : Status
  pub attempt_count : ℕ
  pub clarification : Option Clarification
  pub error : Json
  pub result : Json
  pub created_at : String
  pub updated_at : String
  pub started_at : Option String
  pub completed_at : Option String

-- A value of the `runs` object: a run, or something that is no JSON object.
pub data Entry : Type 0 where
  run : Run → Entry
  junk : Json → Entry

pub data Error : Type 0 where
  value_error store_error idempotency_conflict : Error
  invalid_transition retry_not_allowed input_not_allowed : Error

abbrev pub Result {ℓ} : Type ℓ → Type ℓ
Result A = Outcome Error A

abbrev pub empty_checkpoint : Checkpoint
empty_checkpoint = record {
  baseline_message_count = none;
  artifact_ids = none;
  upstream_submission_started = none;
  retry_epoch_start_attempt = none;
  input_receipts = none;
  pending_input = none;
}

-- `if not isinstance(checkpoint, dict): checkpoint = {}`
abbrev pub checkpoint_or_empty : Option Checkpoint → Checkpoint
checkpoint_or_empty none = empty_checkpoint
checkpoint_or_empty (some c) = c

-- `if not isinstance(receipts, dict): receipts = {}`
abbrev pub receipts_or_empty : Option (Dict Receipt) → Dict Receipt
receipts_or_empty none = []
receipts_or_empty (some d) = d

-- `int(checkpoint.get("retry_epoch_start_attempt") or 0)`
abbrev pub epoch_start : Option Checkpoint → ℕ
epoch_start none = 0
epoch_start (some c) = elim c.retry_epoch_start_attempt [ none ↦ 0 | some n ↦ n ]

-- Attempts in the current retry epoch.
unfoldable pub run_retry_attempt_count : Run → ℕ
run_retry_attempt_count r = r.attempt_count - min r.attempt_count (epoch_start r.checkpoint)

-- `_owned`, where both scopes are ASCII texts: `compare_digest` raises a TypeError on others.
unfoldable pub owned : Run → String → Bool
owned r scope = not (str_eq r.owner_scope "") && str_eq r.owner_scope scope
