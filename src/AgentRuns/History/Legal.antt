-- ===== src/AgentRuns/History/Legal.antt =====
-- The calls of src/xpd_report_agent/api/agent_runs.py refine the state machine of one run.
use xpd_report_agent.Prelude.{
  ap, ◌≤◌, String, ◌≡◌, refl, ◌⊎◌, inl, inr, ◌∙◌, true, false, none, some, List, [], ◌∷◌, arith,
}
use xpd_report_agent.Prelude.Json.{null}
use xpd_report_agent.AgentRuns.Run.{Run, pending, succeeded, is_succeeded, owned}
use xpd_report_agent.AgentRuns.Validate.{Codec}
use xpd_report_agent.AgentRuns.File.{File, Env}
use xpd_report_agent.AgentRuns.Moves.{
  Legal-final, Legal-le, Moved, begin, running_update-Moved, succeeded_update-Moved,
  failed_update-Moved, retry_update-Moved, waiting_update-Moved, checkpoint_update-Moved,
  resume_update-Moved,
}
use xpd_report_agent.AgentRuns.Operations.{Op, perform, perform_all}
use xpd_report_agent.AgentRuns.Effects.{Effect}
use xpd_report_agent.AgentRuns.Effects.Perform.{Rules, scope_of, perform-Effect}
use xpd_report_agent.AgentRuns.History.Lookup.{run_at, Effect-run_at}

-- A run as `create_or_get` inserts it.
pub record IsNew (r : Run) : Type 0 where
  pub status : r.status ≡ pending
  pub attempts : r.attempt_count ≡ 0
  pub clarification : r.clarification ≡ none
  pub error : r.error ≡ null
  pub result : r.result ≡ null
  pub completed : r.completed_at ≡ none

Rules-Moved : (e : Env) → Rules Moved IsNew e
Rules-Moved e = record {
  starts = λ r r' h. running_update-Moved e r (e.clock 1) h;
  claims = λ r h. grind (arith, begin);
  succeeds = λ v r r' h. succeeded_update-Moved e r (e.clock 1) v h;
  fails = λ v r r' h. failed_update-Moved e r (e.clock 1) v h;
  retries = λ m r r' h. retry_update-Moved r (e.clock 1) m h;
  waits = λ q r r' h. waiting_update-Moved r (e.clock 1) q h;
  notes = λ f r r' h. checkpoint_update-Moved r (e.clock 1) f h;
  resumes = λ k h a n ids r r' u. resume_update-Moved e r (e.clock 1) k h a n ids u;
  news = λ k. record {
    status = refl;
    attempts = refl;
    clarification = refl;
    error = refl;
    result = refl;
    completed = refl;
  };
}

-- Whatever the call, its arguments and the file: the file stays as it is, or exactly one run of
-- the calling owner makes one legal move (or keeps its status) with its identity, request and
-- creation time unchanged, or one new pending run with no attempts is added under an id that held
-- no run.
pub perform_legal :
    (c : Codec) (e : Env) (op : Op) (f : File)
    → Effect Moved IsNew (scope_of op) f (perform c e op f)
perform_legal c e op f = perform-Effect c e (Rules-Moved e) op f

-- A call for one owner leaves every stored run of another owner as it is.
pub perform_isolated :
    (c : Codec) (e : Env) (op : Op) (f : File) (id : String) (r : Run)
    → run_at f id ≡ some r
    → owned r (scope_of op) ≡ false
    → run_at (perform c e op f) id ≡ some r
perform_isolated c e op f id r h o =
    let (r', p, q) = Effect-run_at id r (perform_legal c e op f) h in ground arith

-- What a sequence of calls keeps of a run.
pub record Keeps (r r' : Run) : Type 0 where
  pub run_id : r'.run_id ≡ r.run_id
  pub key : r'.idempotency_key ≡ r.idempotency_key
  pub scope : r'.owner_scope ≡ r.owner_scope
  pub session : r'.session_id ≡ r.session_id
  pub hash : r'.request_hash ≡ r.request_hash
  pub request : r'.request ≡ r.request
  pub created : r'.created_at ≡ r.created_at
  pub attempts : r.attempt_count ≤ r'.attempt_count
  pub final :
      r.status ≡ succeeded
      → (r'.status ≡ succeeded) × (r'.result ≡ r.result) × (r'.attempt_count ≡ r.attempt_count)

Moved-Keeps : {r r' : Run} → Moved r r' → Keeps r r'
Moved-Keeps {r} m = record {
  run_id = m.run_id;
  key = m.key;
  scope = m.scope;
  session = m.session;
  hash = m.hash;
  request = m.request;
  created = m.created;
  attempts = Legal-le m.legal;
  final = λ e. let (s, n) = Legal-final m.legal e in (s, m.result (ap is_succeeded e), n);
}

Keeps-refl : (r : Run) → Keeps r r
Keeps-refl r = ground arith

Keeps-trans : {r r' r'' : Run} → Keeps r r' → Keeps r' r'' → Keeps r r''
Keeps-trans a b = record {
  run_id = b.run_id ∙ a.run_id;
  key = b.key ∙ a.key;
  scope = b.scope ∙ a.scope;
  session = b.session ∙ a.session;
  hash = b.hash ∙ a.hash;
  request = b.request ∙ a.request;
  created = b.created ∙ a.created;
  attempts = omega (arith, a.attempts, b.attempts);
  final = λ e. let (s, v, n) = a.final e in let (s', v', n') = b.final s in (s', v' ∙ v, n' ∙ n);
}

-- A stored run stays in the file under its id through any sequence of calls. Its identity, owner,
-- request and creation time never change, its attempts never fall, and once it has succeeded its
-- status, result and attempts never change.
pub perform_all-Keeps :
    (c : Codec) (ops : List (Env × Op)) (f : File) (id : String) (r : Run)
    → run_at f id ≡ some r
    → (r' : Run) × (run_at (perform_all c ops f) id ≡ some r') × Keeps r r'
unfolding perform_all
perform_all-Keeps c [] f id r h = (r, h, Keeps-refl r)
perform_all-Keeps c ((e, op) ∷ ops) f id r h =
    let (x, p, q) = Effect-run_at id r (perform_legal c e op f) h in
    let (y, p', k) = perform_all-Keeps c ops (perform c e op f) id x p in
    (y, p', Keeps-trans (kept q) k)
  where
    kept : {x : Run} → (x ≡ r) ⊎ (Moved r x × (owned r (scope_of op) ≡ true)) → Keeps r x
    kept (inl e) = rw e (Keeps-refl r)
    kept (inr m) = Moved-Keeps m.0
