-- ===== src/AgentRuns/History/Consistent.antt =====
-- The invariant of the records that src/xpd_report_agent/api/agent_runs.py stores: the optional
-- fields agree with the status.
use xpd_report_agent.Prelude.{
  ◌<◌, String, ◌≡◌, Bool, true, false, ◌||◌, Option, none, some, List, [], ◌∷◌, arith,
}
use xpd_report_agent.Prelude.Json.{null}
use xpd_report_agent.AgentRuns.Run.{
  Status, other, Run, is_running, is_waiting, is_succeeded, is_failed,
}
use xpd_report_agent.AgentRuns.Validate.{Codec}
use xpd_report_agent.AgentRuns.File.{File, Env}
use xpd_report_agent.AgentRuns.Updates.{
  running_update, succeeded_update, failed_update, retry_update, waiting_update, checkpoint_update,
  resume_update,
}
use xpd_report_agent.AgentRuns.Operations.{Op, perform, perform_all}
use xpd_report_agent.AgentRuns.Effects.Perform.{Rules, perform-Effect}
use xpd_report_agent.AgentRuns.History.Lookup.{run_at, Effect-All}

abbrev pub is_given {ℓ} : {A : Type ℓ} → Option A → Bool
is_given none = false
is_given (some a) = true

abbrev pub is_known : Status → Bool
is_known (other s) = false
is_known _ = true

-- The status is one that the store writes. A clarification is kept exactly while the run waits for
-- input, and a completion time exactly after the end. Only a succeeded run has a result, and only a
-- failed one an error; a running one has been started.
pub record IsConsistent (r : Run) : Type 0 where
  pub known : is_known r.status ≡ true
  pub clarification : is_given r.clarification ≡ is_waiting r.status
  pub completed : is_given r.completed_at ≡ (is_succeeded r.status || is_failed r.status)
  pub result : is_succeeded r.status ≡ false → r.result ≡ null
  pub error : is_failed r.status ≡ false → r.error ≡ null
  pub started : is_running r.status ≡ true → is_given r.started_at ≡ true
  pub attempts : is_running r.status ≡ true → 0 < r.attempt_count

Rules-IsConsistent : (e : Env) → Rules (λ r r'. IsConsistent r → IsConsistent r') IsConsistent e
unfolding running_update succeeded_update failed_update retry_update waiting_update
    checkpoint_update resume_update
Rules-IsConsistent e = record {
  starts = λ r r' h c. grind arith;
  claims = λ r h c. grind arith;
  succeeds = λ v r r' h c. grind arith;
  fails = λ v r r' h c. grind arith;
  retries = λ m r r' h c. grind arith;
  waits = λ q r r' h c. grind arith;
  notes = λ f r r' h c. grind arith;
  resumes = λ k h a n ids r r' u c. grind arith;
  news = λ k. grind arith;
}

-- Consistent means: the status is one of the five; a clarification is there exactly on a waiting run,
-- a time of completion exactly on a succeeded or failed one; a result only on a succeeded, an error
-- only on a failed one; a running run has a start time and an attempt. If every stored run is
-- consistent, every stored run is so after any sequence of calls.
pub perform_all-IsConsistent :
    (c : Codec) (ops : List (Env × Op)) (f : File)
    → ((id : String) (r : Run) → run_at f id ≡ some r → IsConsistent r)
    → (id : String) (r : Run) → run_at (perform_all c ops f) id ≡ some r
    → IsConsistent r
unfolding perform_all
perform_all-IsConsistent c [] f h = h
perform_all-IsConsistent c ((e, op) ∷ ops) f h =
    perform_all-IsConsistent c ops (perform c e op f)
      (Effect-All IsConsistent (perform-Effect c e (Rules-IsConsistent e) op f) h)
