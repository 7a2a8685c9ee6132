-- ===== src/AgentRuns/Calls/Claim.antt =====
-- `claim_pending` of src/xpd_report_agent/api/agent_runs.py lets one worker in.
use xpd_report_agent.Prelude.{◌≢◌, ◌+◌, String, ◌≡◌, refl, true, Option, none, some, arith, eq_refl}
use xpd_report_agent.Prelude.Dict.{Dict, insert}
use xpd_report_agent.AgentRuns.Run.{pending, running, Run, Entry, run, ok, owned}
use xpd_report_agent.AgentRuns.File.{File, Env, load, save, stored}
use xpd_report_agent.AgentRuns.Store.{owned_run, claim_found, claim_pending}
use xpd_report_agent.AgentRuns.Calls.{found-eq-ok}
use xpd_report_agent.AgentRuns.History.Lookup.{run_at, owned_run-run_at, run_at-stored}

-- What a winning claim does.
pub record Claimed (id scope : String) (f : File) (r : Run) (f' : File) : Type 0 where
  pub before : Run
  pub held : run_at f id ≡ some before
  pub mine : owned before scope ≡ true
  pub was : before.status ≡ pending
  pub now : r.status ≡ running
  pub attempts : r.attempt_count ≡ before.attempt_count + 1
  pub kept : run_at f' id ≡ some r

claim_found-Claimed :
    (e : Env) (id scope : String) (f : File) (runs : Dict Entry) (o : Option Run) {r : Run}
    {f' : File}
    → load f ≡ ok runs
    → owned_run runs id scope ≡ o
    → claim_found e id f runs o ≡ ok ((some r, true), f')
    → Claimed id scope f r f'
unfolding claim_found save
claim_found-Claimed e id scope f runs none l o h = cc
claim_found-Claimed e id scope f runs (some x) {r} {f'} l o h = record {
  before = x;
  held = (owned_run-run_at f runs id scope l o).0;
  mine = (owned_run-run_at f runs id scope l o).1;
  was = ground arith;
  now = ground arith;
  attempts = ground arith;
  kept =
      let e : f' ≡ stored (insert id (run r) runs) = ground arith in rw (e, run_at-stored, eq_refl);
}

-- A claim that wins found the owner's run pending, starts it and counts one attempt, and the file
-- then holds the started run.
pub claim_pending-Claimed :
    (e : Env) (id scope : String) (f : File) {r : Run} {f' : File}
    → claim_pending e id scope f ≡ ok ((some r, true), f')
    → Claimed id scope f r f'
unfolding claim_pending
claim_pending-Claimed e id scope f h =
    let (runs, l, k) = found-eq-ok id scope f (claim_found e id f) h in
    claim_found-Claimed e id scope f runs (owned_run runs id scope) l refl k

-- After a claim that wins, no claim of the same run wins, whoever makes it.
pub claim_pending_once :
    (e e' : Env) (id s s' : String) (f : File) {r r' : Run} {f' f'' : File}
    → claim_pending e id s f ≡ ok ((some r, true), f')
    → claim_pending e' id s' f' ≢ ok ((some r', true), f'')
claim_pending_once e e' id s s' f {f' = f'} h h' =
    let a = claim_pending-Claimed e id s f h in
    let b = claim_pending-Claimed e' id s' f' h' in cc (a.kept, b.held, a.now, b.was)
