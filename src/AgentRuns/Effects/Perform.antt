-- ===== src/AgentRuns/Effects/Perform.antt =====
-- Every writing operation of src/xpd_report_agent/api/agent_runs.py has an effect on at most one
-- run: the rule that carries a fact about the updates over to the calls.
use xpd_report_agent.Prelude.{ltb, ℕ, String, ◌≡◌, inl, inr, true, Bool-cases}
use xpd_report_agent.Prelude.Json.{Json}
use xpd_report_agent.AgentRuns.Run.{Clarification, Run, ok, is_pending}
use xpd_report_agent.AgentRuns.Validate.{json_clone, Codec}
use xpd_report_agent.AgentRuns.File.{File, Env}
use xpd_report_agent.AgentRuns.Updates.{
  normalize_clarification, resume_update, started, CheckpointFields, running_update,
  succeeded_update, failed_update, retry_update, waiting_update, checkpoint_update,
}
use xpd_report_agent.AgentRuns.Store.{
  Checked, new_run, mark_running, mark_succeeded, mark_failed, retry, mark_waiting_input,
  set_checkpoint,
}
use xpd_report_agent.AgentRuns.Operations.{
  start, claim, succeed, fail, again, ask, answer, note, Op, create, change, after, perform_change,
  perform,
}
use xpd_report_agent.AgentRuns.Effects.{bind-Effect, Effect, same, bind-Effect}
use xpd_report_agent.AgentRuns.Effects.Calls.{
  update_owned-Effect, claim_pending-Effect, resume_with_input-Effect, create_or_get-Effect,
}

-- The relation that each update satisfies, and the predicate of new runs, carry over to the calls.
pub record Rules (P : Run → Run → Type 0) (N : Run → Type 0) (e : Env) : Type 0 where
  pub starts :
      (r r' : Run) → running_update e r ≡ ok r' → P r (record r' { updated_at = e.clock 1 })
  pub claims :
      (r : Run) → is_pending r.status ≡ true → P r (record (started e r) { updated_at = e.clock 0 })
  pub succeeds :
      (v : Json) (r r' : Run)
      → succeeded_update e v r ≡ ok r'
      → P r (record r' { updated_at = e.clock 1 })
  pub fails :
      (v : Json) (r r' : Run)
      → failed_update e v r ≡ ok r'
      → P r (record r' { updated_at = e.clock 1 })
  pub retries :
      (m : ℕ) (r r' : Run) → retry_update m r ≡ ok r' → P r (record r' { updated_at = e.clock 1 })
  pub waits :
      (q : Clarification) (r r' : Run)
      → waiting_update q r ≡ ok r'
      → P r (record r' { updated_at = e.clock 1 })
  pub notes :
      (fields : CheckpointFields) (r r' : Run)
      → checkpoint_update fields r ≡ ok r'
      → P r (record r' { updated_at = e.clock 1 })
  pub resumes :
      (key hash reply : String) (n : ℕ) (ids : Json) (r r' : Run)
      → resume_update e key hash reply n ids r ≡ ok r'
      → P r (record r' { updated_at = e.clock 1 })
  pub news : (k : Checked) → N (new_run e k)

-- The owner that an operation acts for.
abbrev pub scope_of : Op → String
scope_of (create q) = q.owner_scope
scope_of (change d id s) = s

module _ {P : Run → Run → Type 0} {N : Run → Type 0} (c : Codec) (e : Env) where
  pub perform-Effect :
      Rules P N e → (op : Op) (f : File) → Effect P N (scope_of op) f (perform c e op f)
  unfolding perform perform_change mark_running mark_succeeded mark_failed retry mark_waiting_input
      set_checkpoint
  perform-Effect h (create q) f = create_or_get-Effect e c q f h.news
  perform-Effect h (change start id s) f = update_owned-Effect e _ id s f h.starts
  perform-Effect h (change claim id s) f = claim_pending-Effect e id s f h.claims
  perform-Effect h (change (succeed v) id s) f =
      bind-Effect (json_clone v) _ λ w _. update_owned-Effect e _ id s f (h.succeeds w)
  perform-Effect h (change (fail v) id s) f =
      bind-Effect (json_clone v) _ λ w _. update_owned-Effect e _ id s f (h.fails w)
  perform-Effect h (change (again m) id s) f = elim (Bool-cases (ltb m 1)) [
    | inl b ↦ rw (b, after) same
    | inr b ↦ rw (b, after) (update_owned-Effect e _ id s f (h.retries m))
  ]
  perform-Effect h (change (ask q) id s) f =
      bind-Effect (normalize_clarification e q) _ λ w _. update_owned-Effect e _ id s f (h.waits w)
  perform-Effect h (change (answer key reply n ids) id s) f =
      resume_with_input-Effect e c key reply n ids id s f λ k a m. h.resumes key k a m ids
  perform-Effect h (change (note fields) id s) f = update_owned-Effect e _ id s f (h.notes fields)
