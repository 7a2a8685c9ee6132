-- ===== src/AgentRuns/Calls/Corrupt.antt =====
-- The store of src/xpd_report_agent/api/agent_runs.py fails closed on a file that it cannot read.
use xpd_report_agent.Prelude.{
  String, ◌≡◌, ◌≢◌, refl, Bool, arith, ℕ, true, false, not, Option, none, some, List, ◌==◌,
}
use xpd_report_agent.AgentRuns.Run.{value_error, guard, store_error, Run, ok, err, Error, bind_elim}
use xpd_report_agent.AgentRuns.Validate.{Codec}
use xpd_report_agent.AgentRuns.File.{File, missing, unreadable, document, Env, load}
use xpd_report_agent.AgentRuns.Store.{
  checked_scope, too_few, list_resumable, Request, check_request, create_or_get,
}
use xpd_report_agent.AgentRuns.Moves.{Moved}
use xpd_report_agent.AgentRuns.Operations.{Op, perform}
use xpd_report_agent.AgentRuns.Effects.{Effect, same, moved, added}
use xpd_report_agent.AgentRuns.History.Legal.{perform_legal, IsNew}

-- The file is there, but it cannot be read, or it is no document of version 1 with runs.
abbrev pub is_corrupt : File → Bool
is_corrupt missing = false
is_corrupt unreadable = true
is_corrupt (document none _) = true
is_corrupt (document (some version) none) = true
is_corrupt (document (some version) (some runs)) = not (version == 1)

load-is_corrupt : (f : File) → is_corrupt f ≡ true → load f ≡ err store_error
unfolding load
load-is_corrupt missing h = absurd (ground arith)
load-is_corrupt unreadable h = refl
load-is_corrupt (document none o) h = refl
load-is_corrupt (document (some version) none) h = refl
load-is_corrupt (document (some version) (some runs)) h = ground arith

Effect-corrupt :
    {scope : String} {f f' : File} {x : Error}
    → load f ≡ err x
    → Effect Moved IsNew scope f f'
    → f' ≡ f
Effect-corrupt h same = refl
Effect-corrupt h (moved id runs r r' l o p) = absurd (ground arith)
Effect-corrupt h (added id runs r l free n) = absurd (ground arith)

-- Where the file is there but cannot be read, or is of another version or without runs, no operation
-- writes to it, no call of `create_or_get` accepts a request, and `list_resumable` returns no list:
-- the file is not taken for an empty one.
pub perform_corrupt :
    (c : Codec) (e : Env) (f : File)
    → is_corrupt f ≡ true
    → (op : Op) (q : Request) (v : (Run × Bool) × File) (m : Option ℕ) (s : Option String)
      (rs : List Run)
    → (perform c e op f ≡ f) × (create_or_get c e q f ≢ ok v) × (list_resumable m s f ≢ ok rs)
unfolding create_or_get list_resumable
perform_corrupt c e f bad op q v m s rs =
    let h = load-is_corrupt f bad in
    (
      Effect-corrupt h (perform_legal c e op f),
      (λ k. bind_elim (check_request c q) _ k λ d _ k'. bind_elim (load f) _ k' λ runs l _. cc),
      λ k. bind_elim (guard (not (too_few m)) value_error) _ k λ _ _ k1.
          bind_elim (checked_scope s) _ k1 λ _ _ k2. bind_elim (load f) _ k2 λ runs l _. cc,
    )
