-- ===== src/AgentRuns/Operations.antt =====
-- Every writing operation of `AgentRunStore` (src/xpd_report_agent/api/agent_runs.py) as a value,
-- and the file after a sequence of calls. A call that raises leaves the file as it was.
use xpd_report_agent.Prelude.{ℕ, String, List, [], ◌∷◌}
use xpd_report_agent.Prelude.Json.{Json, ℤ}
use xpd_report_agent.AgentRuns.Run.{Result, ok, err}
use xpd_report_agent.AgentRuns.Validate.{Codec}
use xpd_report_agent.AgentRuns.File.{File, Env}
use xpd_report_agent.AgentRuns.Updates.{ClarificationInput, CheckpointFields}
use xpd_report_agent.AgentRuns.Store.{
  Request, create_or_get, mark_running, claim_pending, mark_succeeded, mark_failed, retry,
  mark_waiting_input, resume_with_input, set_checkpoint,
}

-- An operation on one run of one owner.
pub data Change : Type 0 where
  start claim : Change
  succeed fail : Json → Change
  again : ℕ → Change
  ask : ClarificationInput → Change
  answer : String → String → ℤ → Json → Change
  note : CheckpointFields → Change

pub data Op : Type 0 where
  create : Request → Op
  change : Change → String → String → Op

-- The file after a call.
abbrev pub after {ℓ} : {A : Type ℓ} → File → Result (A × File) → File
after file (ok (a, file')) = file'
after file (err e) = file

unfoldable pub perform_change : Codec → Env → Change → String → String → File → File
perform_change c e start id s f = after f (mark_running e id s f)
perform_change c e claim id s f = after f (claim_pending e id s f)
perform_change c e (succeed v) id s f = after f (mark_succeeded e v id s f)
perform_change c e (fail v) id s f = after f (mark_failed e v id s f)
perform_change c e (again m) id s f = after f (retry e m id s f)
perform_change c e (ask q) id s f = after f (mark_waiting_input e q id s f)
perform_change c e (answer key a b ids) id s f = after f (resume_with_input c e key a b ids id s f)
perform_change c e (note fields) id s f = after f (set_checkpoint e fields id s f)

unfoldable pub perform : Codec → Env → Op → File → File
perform c e (create q) f = after f (create_or_get c e q f)
perform c e (change d id s) f = perform_change c e d id s f

unfoldable pub perform_all : Codec → List (Env × Op) → File → File
perform_all c [] f = f
perform_all c ((e, op) ∷ ops) f = perform_all c ops (perform c e op f)
