-- ===== src/AgentRuns/Effects.antt =====
-- What a call may do to the file: nothing, one move of one owned run, or one new run.
pub mod Calls
pub mod Perform
use xpd_report_agent.Prelude.{
  ltb, ℕ, String, ◌≡◌, refl, ◌⊎◌, inl, inr, Bool, true, false, Option, none, some, arith, str_eq,
  Option-cases, Bool-cases, if◌then◌else◌, List,
}
use xpd_report_agent.Prelude.Dict.{Dict, lookup, insert}
use xpd_report_agent.Prelude.Json.{ℤ, Json}
use xpd_report_agent.AgentRuns.Run.{
  Clarification, value_error, Run, Entry, run, junk, Result, ok, err, ◌>>=◌, ◌>>◌, guard, owned,
  is_pending, Error, Checkpoint, Result-cases,
}
use xpd_report_agent.AgentRuns.Validate.{
  stable_run_id, request_digest, json_clone-eq, json_clone, answer_digest,
  validate_idempotency_key-eq, validate_idempotency_key, validate_identity-eq, Codec,
  validate_identity,
}
use xpd_report_agent.AgentRuns.File.{File, Env, load, save, stored}
use xpd_report_agent.AgentRuns.Updates.{
  normalize_clarification, receipt_of, resume_update, started, CheckpointFields, ClarificationInput,
  running_update, succeeded_update, failed_update, retry_update, waiting_update, checkpoint_update,
}
use xpd_report_agent.AgentRuns.Store.{
  caller_id, Request, owned_run, new_run, create_found, create_or_get, update_owned, resume_found,
  is_list, nonnegative, update_found, claim_found, mark_running, claim_pending, mark_succeeded,
  mark_failed, retry, mark_waiting_input, resume_with_input, set_checkpoint,
}
use xpd_report_agent.AgentRuns.Operations.{
  Change, start, claim, succeed, fail, again, ask, answer, note, Op, create, change, after,
  perform_change, perform,
}
use xpd_report_agent.AgentRuns.Moves

-- `lookup` finds no run under the id.
abbrev pub IsFree : String → Dict Entry → Type 0
IsFree id runs = (r : Run) → lookup id runs ≡ some (run r) → ⊥

-- One call by the owner `scope`, with `P` between a run and what it becomes, and `N` of an inserted run.
pub data Effect (P : Run → Run → Type 0) (N : Run → Type 0) (scope : String)
    : File → File → Type 0 where
  same : {f : File} → Effect P N scope f f
  moved :
      {f : File} (id : String) (runs : Dict Entry) (r r' : Run)
      → load f ≡ ok runs
      → owned_run runs id scope ≡ some r
      → P r r'
      → Effect P N scope f (stored (insert id (run r') runs))
  added :
      {f : File} (id : String) (runs : Dict Entry) (r : Run)
      → load f ≡ ok runs
      → IsFree id runs
      → N r
      → Effect P N scope f (stored (insert id (run r) runs))

module _ {P : Run → Run → Type 0} {N : Run → Type 0} {scope : String} (e : Env) where
  pub after-save :
      {A : Type 0} (a : A) {f : File} (runs : Dict Entry)
      → Effect P N scope f (stored runs)
      → Effect P N scope f (after f (do saved ← save e runs; ok (a, saved)))
  unfolding save
  after-save a runs h = elim (Bool-cases e.writable) [ inl w ↦ rw w h | inr w ↦ rw w same ]

module _ {P : Run → Run → Type 0} {N : Run → Type 0} where
  pub bind-Effect :
      {A B : Type 0} {scope : String} (m : Result A) (k : A → Result (B × File)) {f : File}
      → ((a : A) → m ≡ ok a → Effect P N scope f (after f (k a)))
      → Effect P N scope f (after f (m >>= k))
  bind-Effect (ok a) k h = h a refl
  bind-Effect (err x) k h = same

  -- The lookup that the operations on one run begin with.
  pub found-Effect :
      {B : Type 0} (id scope : String) {f : File} (k : Dict Entry → Option Run → Result (B × File))
      → ((runs : Dict Entry) → Effect P N scope f (after f (k runs none)))
      → ((runs : Dict Entry) (r : Run)
          → load f ≡ ok runs
          → owned_run runs id scope ≡ some r
          → Effect P N scope f (after f (k runs (some r))))
      → Effect P N scope f
          (after f (do s ← validate_identity scope; runs ← load f; k runs (owned_run runs id s)))
  found-Effect id scope {f} k absent present = bind-Effect (validate_identity scope) _ λ s p.
      rw (validate_identity-eq scope p) (
        bind-Effect (load f) _ λ runs q. elim (Option-cases (owned_run runs id scope)) [
          | inl o ↦ rw (o, after) (absent runs)
          | inr (r, o) ↦ rw (o, after) (present runs r q o)
        ])
