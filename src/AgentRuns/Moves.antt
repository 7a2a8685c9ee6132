-- ===== src/AgentRuns/Moves.antt =====
-- The state machine of one run: which statuses follow one another, and what never changes. Every
-- update of src/xpd_report_agent/api/agent_runs.py is one of its moves.
use xpd_report_agent.Prelude.{◌≤◌, ℕ, ◌+◌, String, ◌≡◌, refl, true, arith}
use xpd_report_agent.Prelude.Json.{Json}
use xpd_report_agent.AgentRuns.Run.{
  Status, pending, running, waiting_input, succeeded, failed, is_resumable, is_succeeded,
  Clarification, Run, ok,
}
use xpd_report_agent.AgentRuns.File.{Env}
use xpd_report_agent.AgentRuns.Updates.{
  running_update, succeeded_update, failed_update, retry_update, waiting_update, CheckpointFields,
  checkpoint_update, resume_update,
}

-- A change of status, with the number of attempts before and after it.
pub data Legal : Status → ℕ → Status → ℕ → Type 0 where
  begin : {s : Status} {n : ℕ} → is_resumable s ≡ true → Legal s n running (n + 1)
  succeed : {s : Status} {n : ℕ} → is_resumable s ≡ true → Legal s n succeeded n
  fail : {s : Status} {n : ℕ} → is_resumable s ≡ true → Legal s n failed n
  ask : {s : Status} {n : ℕ} → is_resumable s ≡ true → Legal s n waiting_input n
  again : {s : Status} {n : ℕ} → s ≡ failed → Legal s n pending n
  resume : {s : Status} {n : ℕ} → s ≡ waiting_input → Legal s n pending n
  stay : {s : Status} {n : ℕ} → Legal s n s n

-- What an update may do to a run.
pub record Moved (r r' : Run) : Type 0 where
  pub run_id : r'.run_id ≡ r.run_id
  pub key : r'.idempotency_key ≡ r.idempotency_key
  pub scope : r'.owner_scope ≡ r.owner_scope
  pub session : r'.session_id ≡ r.session_id
  pub hash : r'.request_hash ≡ r.request_hash
  pub request : r'.request ≡ r.request
  pub created : r'.created_at ≡ r.created_at
  pub legal : Legal r.status r.attempt_count r'.status r'.attempt_count
  pub result : is_succeeded r.status ≡ true → r'.result ≡ r.result

module _ (e : Env) (r : Run) {r' : Run} (t : String) where
  pub running_update-Moved : running_update e r ≡ ok r' → Moved r (record r' { updated_at = t })
  unfolding running_update
  running_update-Moved h = grind (arith, begin)

  pub succeeded_update-Moved :
      (v : Json) → succeeded_update e v r ≡ ok r' → Moved r (record r' { updated_at = t })
  unfolding succeeded_update
  succeeded_update-Moved v h = grind (arith, succeed, stay)

  pub failed_update-Moved :
      (v : Json) → failed_update e v r ≡ ok r' → Moved r (record r' { updated_at = t })
  unfolding failed_update
  failed_update-Moved v h = grind (arith, fail, stay)

  pub resume_update-Moved :
      (key hash answer : String) (baseline : ℕ) (ids : Json)
      → resume_update e key hash answer baseline ids r ≡ ok r'
      → Moved r (record r' { updated_at = t })
  unfolding resume_update
  resume_update-Moved key hash answer baseline ids h = grind (arith, resume)

module _ (r : Run) {r' : Run} (t : String) where
  pub retry_update-Moved :
      (m : ℕ) → retry_update m r ≡ ok r' → Moved r (record r' { updated_at = t })
  unfolding retry_update
  retry_update-Moved m h = grind (arith, again)

  pub waiting_update-Moved :
      (c : Clarification) → waiting_update c r ≡ ok r' → Moved r (record r' { updated_at = t })
  unfolding waiting_update
  waiting_update-Moved c h = grind (arith, ask, stay)

  pub checkpoint_update-Moved :
      (f : CheckpointFields)
      → checkpoint_update f r ≡ ok r'
      → Moved r (record r' { updated_at = t })
  unfolding checkpoint_update
  checkpoint_update-Moved f h = grind (arith, stay)

pub Legal-le : {s s' : Status} {n n' : ℕ} → Legal s n s' n' → n ≤ n'
Legal-le (begin h) = omega arith
Legal-le (succeed h) = omega arith
Legal-le (fail h) = omega arith
Legal-le (ask h) = omega arith
Legal-le (again h) = omega arith
Legal-le (resume h) = omega arith
Legal-le stay = omega arith

-- No move leaves `succeeded`.
pub Legal-final :
    {s s' : Status} {n n' : ℕ} → Legal s n s' n' → s ≡ succeeded → (s' ≡ succeeded) × (n' ≡ n)
Legal-final (begin h) e = absurd (ground arith)
Legal-final (succeed h) e = absurd (ground arith)
Legal-final (fail h) e = absurd (ground arith)
Legal-final (ask h) e = absurd (ground arith)
Legal-final (again h) e = absurd (ground arith)
Legal-final (resume h) e = absurd (ground arith)
Legal-final stay e = (e, refl)
