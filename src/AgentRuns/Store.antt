-- ===== src/AgentRuns/Store.antt =====
-- The operations of `AgentRunStore` (src/xpd_report_agent/api/agent_runs.py). A writing operation
-- maps the file to its result and the new file; an error leaves the file as it is.
use xpd_report_agent.Prelude.{
  ℕ, String, Bool, true, false, not, ◌&&◌, ◌||◌, Option, none, some, List, [], ◌∷◌, ltb, str_eq,
  if◌then◌else◌,
}
use xpd_report_agent.Prelude.Dict.{Dict, lookup, insert, values}
use xpd_report_agent.Prelude.Json.{Json, ℤ, pos, negsuc}
use xpd_report_agent.Prelude.Sort.{sort}
use xpd_report_agent.Prelude.Text.{text_le}
use xpd_report_agent.AgentRuns.Run.{
  checkpoint_or_empty, pending, is_resumable, is_pending, is_running, Checkpoint, Run, Entry, run,
  junk, Result, ok, err, value_error, idempotency_conflict, ◌>>=◌, ◌>>◌, guard,
  run_retry_attempt_count, owned,
}
use xpd_report_agent.AgentRuns.Validate.{
  Codec, validate_identity, validate_idempotency_key, json_clone, request_digest, answer_digest,
  stable_run_id,
}
use xpd_report_agent.AgentRuns.File.{File, Env, load, save}
use xpd_report_agent.AgentRuns.Updates.{
  started, running_update, succeeded_update, failed_update, retry_update, ClarificationInput,
  normalize_clarification, waiting_update, CheckpointFields, checkpoint_update, receipt_of,
  resume_update,
}

-- `isinstance(run, dict)` and `_owned`: the run under an id, if the scope owns it
unfoldable pub owned_run : Dict Entry → String → String → Option Run
owned_run runs run_id scope = elim (lookup run_id runs) [
  | none ↦ none
  | some (junk v) ↦ none
  | some (run r) ↦ if owned r scope then some r else none
]

-- The arguments of `create_or_get`.
pub record Request : Type 0 where
  pub owner_scope : String
  pub session_id : String
  pub idempotency_key : String
  pub request : Json
  pub request_id : Option String
  pub checkpoint : Option Checkpoint

-- `request_id or key`
abbrev pub caller_id : Option String → String → String
caller_id none key = key
caller_id (some s) key = if str_eq s "" then key else s

-- The arguments of `create_or_get` behind its checks, with the run id and the digest.
pub record Checked : Type 0 where
  pub run_id : String
  pub request_id : String
  pub idempotency_key : String
  pub owner_scope : String
  pub session_id : String
  pub request_hash : String
  pub request : Json
  pub checkpoint : Option Checkpoint

-- The run that `create_or_get` inserts.
abbrev pub new_run : Env → Checked → Run
new_run e k = record {
  run_id = k.run_id;
  request_id = k.request_id;
  idempotency_key = k.idempotency_key;
  owner_scope = k.owner_scope;
  session_id = k.session_id;
  request_hash = k.request_hash;
  request = k.request;
  checkpoint = k.checkpoint;
  status = pending;
  attempt_count = 0;
  clarification = none;
  error = Json.null;
  result = Json.null;
  created_at = e.clock 0;
  updated_at = e.clock 0;
  started_at = none;
  completed_at = none;
}

-- `create_or_get` above its lock
unfoldable pub check_request : Codec → Request → Result Checked
check_request c q = do
  scope ← validate_identity q.owner_scope
  session ← validate_identity q.session_id
  key ← validate_idempotency_key (some q.idempotency_key)
  caller ← validate_idempotency_key (some (caller_id q.request_id key))
  (hash, request) ← request_digest c q.request
  run_id ← stable_run_id c scope session key
  ok (record {
    run_id = run_id;
    request_id = caller;
    idempotency_key = key;
    owner_scope = scope;
    session_id = session;
    request_hash = hash;
    request = request;
    checkpoint = some (checkpoint_or_empty q.checkpoint);
  })

-- `create_or_get` behind the lookup: an existing run is returned for the same request only.
unfoldable pub create_found :
    Env → String → Run → File → Dict Entry → Option Entry → Result ((Run × Bool) × File)
create_found e run_id fresh file runs (some (run r)) =
    if str_eq r.request_hash fresh.request_hash
    then ok ((r, false), file)
    else err idempotency_conflict
create_found e run_id fresh file runs _ = do
  saved ← save e (insert run_id (run fresh) runs)
  ok ((fresh, true), saved)

unfoldable pub create_or_get : Codec → Env → Request → File → Result ((Run × Bool) × File)
create_or_get c e q file = do
  k ← check_request c q
  runs ← load file
  create_found e k.run_id (new_run e k) file runs (lookup k.run_id runs)

unfoldable pub get_owned : String → String → File → Result (Option Run)
get_owned run_id owner_scope file = do
  scope ← validate_identity owner_scope
  runs ← load file
  ok (owned_run runs run_id scope)

-- `_update_owned` behind the lookup: nothing is written for a run that the scope does not own.
unfoldable pub update_found :
    Env → (Run → Result Run) → String → File → Dict Entry → Option Run → Result (Option Run × File)
update_found e update run_id file runs none = ok (none, file)
update_found e update run_id file runs (some r) = do
  changed ← update r
  let stamped = record changed { updated_at = e.clock 1 }
  saved ← save e (insert run_id (run stamped) runs)
  ok (some stamped, saved)

unfoldable pub update_owned :
    Env → (Run → Result Run) → String → String → File → Result (Option Run × File)
update_owned e update run_id owner_scope file = do
  scope ← validate_identity owner_scope
  runs ← load file
  update_found e update run_id file runs (owned_run runs run_id scope)

unfoldable pub mark_running : Env → String → String → File → Result (Option Run × File)
mark_running e = update_owned e (running_update e)

unfoldable pub mark_succeeded : Env → Json → String → String → File → Result (Option Run × File)
mark_succeeded e result run_id scope file = do
  normalized ← json_clone result
  update_owned e (succeeded_update e normalized) run_id scope file

unfoldable pub mark_failed : Env → Json → String → String → File → Result (Option Run × File)
mark_failed e error run_id scope file = do
  normalized ← json_clone error
  update_owned e (failed_update e normalized) run_id scope file

unfoldable pub retry : Env → ℕ → String → String → File → Result (Option Run × File)
retry e max_attempts run_id scope file =
    if ltb max_attempts 1
    then err value_error
    else update_owned e (retry_update max_attempts) run_id scope file

unfoldable pub mark_waiting_input :
    Env → ClarificationInput → String → String → File → Result (Option Run × File)
mark_waiting_input e c run_id scope file = do
  normalized ← normalize_clarification e c
  update_owned e (waiting_update normalized) run_id scope file

unfoldable pub set_checkpoint :
    Env → CheckpointFields → String → String → File → Result (Option Run × File)
set_checkpoint e fields = update_owned e (checkpoint_update fields)

unfoldable pub claim_found :
    Env → String → File → Dict Entry → Option Run → Result ((Option Run × Bool) × File)
claim_found e run_id file runs none = ok ((none, false), file)
claim_found e run_id file runs (some r) =
    if is_pending r.status
    then (do
      let claimed = record (started e r) { updated_at = e.clock 0 }
      saved ← save e (insert run_id (run claimed) runs)
      ok ((some claimed, true), saved))
    else ok ((some r, false), file)

unfoldable pub claim_pending : Env → String → String → File → Result ((Option Run × Bool) × File)
claim_pending e run_id owner_scope file = do
  scope ← validate_identity owner_scope
  runs ← load file
  claim_found e run_id file runs (owned_run runs run_id scope)

unfoldable pub replay_input : Codec → String → String → String → String → File → Result (Option Run)
replay_input c idempotency_key answer run_id owner_scope file = do
  scope ← validate_identity owner_scope
  key ← validate_idempotency_key (some idempotency_key)
  (hash, _) ← answer_digest c answer
  runs ← load file
  elim (owned_run runs run_id scope) [
    | none ↦ ok none
    | some r ↦ elim (receipt_of r key) [
      | none ↦ ok none
      | some receipt ↦
          if str_eq receipt.answer_hash hash then ok (some r) else err idempotency_conflict
    ]
  ]

-- `max(0, int(value))`
abbrev pub nonnegative : ℤ → ℕ
nonnegative (pos n) = n
nonnegative (negsuc n) = 0

abbrev pub is_list : Json → Bool
is_list (Json.arr xs) = true
is_list _ = false

-- `resume_with_input` behind the lookup: a receipt under the key replays the accepted answer.
unfoldable pub resume_found :
    Env
    → String
    → String
    → String
    → ℕ
    → Json
    → String
    → File
    → Dict Entry
    → Option Run
    → Result ((Option Run × Bool) × File)
resume_found e key hash answer baseline artifact_ids run_id file runs none =
    ok ((none, false), file)
resume_found e key hash answer baseline artifact_ids run_id file runs (some r) =
    elim (receipt_of r key) [
      | some receipt ↦
          if str_eq receipt.answer_hash hash
          then ok ((some r, false), file)
          else err idempotency_conflict
      | none ↦ do
        changed ← resume_update e key hash answer baseline artifact_ids r
        let stamped = record changed { updated_at = e.clock 1 }
        saved ← save e (insert run_id (run stamped) runs)
        ok ((some stamped, true), saved)
    ]

unfoldable pub resume_with_input :
    Codec
    → Env
    → String
    → String
    → ℤ
    → Json
    → String
    → String
    → File
    → Result ((Option Run × Bool) × File)
resume_with_input c e idempotency_key answer baseline artifact_ids run_id owner_scope file = do
  scope ← validate_identity owner_scope
  key ← validate_idempotency_key (some idempotency_key)
  (hash, normalized) ← answer_digest c answer
  ids ← json_clone artifact_ids
  guard (is_list ids) value_error
  runs ← load file
  let count = nonnegative baseline
  resume_found e key hash normalized count ids run_id file runs (owned_run runs run_id scope)

-- The test of one entry in `list_resumable`.
unfoldable pub resumable : Option ℕ → Option String → Run → Bool
resumable max_attempts scope r =
    is_resumable r.status
    && (is_running r.status
        || elim max_attempts [ none ↦ true | some m ↦ ltb (run_retry_attempt_count r) m ])
    && elim scope [ none ↦ true | some s ↦ owned r s ]

unfoldable pub resumable_runs : Option ℕ → Option String → List Entry → List Run
resumable_runs max_attempts scope [] = []
resumable_runs max_attempts scope (junk v ∷ es) = resumable_runs max_attempts scope es
resumable_runs max_attempts scope (run r ∷ es) =
    let rest = resumable_runs max_attempts scope es in
    if resumable max_attempts scope r then r ∷ rest else rest

-- `(created_at, run_id)` in order
unfoldable pub created_le : Run → Run → Bool
created_le a b =
    if str_eq a.created_at b.created_at
    then text_le a.run_id b.run_id
    else text_le a.created_at b.created_at

abbrev pub too_few : Option ℕ → Bool
too_few none = false
too_few (some m) = ltb m 1

abbrev pub checked_scope : Option String → Result (Unit {0})
checked_scope none = ok tt
checked_scope (some s) = do _ ← validate_identity s; ok tt

unfoldable pub list_resumable : Option ℕ → Option String → File → Result (List Run)
list_resumable max_attempts owner_scope file = do
  guard (not (too_few max_attempts)) value_error
  checked_scope owner_scope
  runs ← load file
  ok (sort created_le (resumable_runs max_attempts owner_scope (values runs)))
