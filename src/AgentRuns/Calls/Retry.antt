-- ===== src/AgentRuns/Calls/Retry.antt =====
-- `retry` of src/xpd_report_agent/api/agent_runs.py keeps to the retry limit of the current epoch.
use xpd_report_agent.Prelude.{
  ℕ, ◌<◌, String, ◌≡◌, refl, inl, inr, true, Option, none, some, arith, ltb, Bool-cases, eq_refl,
}
use xpd_report_agent.Prelude.Dict.{insert, Dict}
use xpd_report_agent.AgentRuns.Run.{
  run, pending, failed, Run, Entry, ok, owned, run_retry_attempt_count,
}
use xpd_report_agent.AgentRuns.File.{File, Env, load, save, stored}
use xpd_report_agent.AgentRuns.Updates.{retry_update}
use xpd_report_agent.AgentRuns.Store.{owned_run, update_found, update_owned, retry}
use xpd_report_agent.AgentRuns.Calls.{found-eq-ok}
use xpd_report_agent.AgentRuns.History.Lookup.{run_at, owned_run-run_at, run_at-stored}

pub record Retried (m : ℕ) (id scope : String) (f : File) (r : Run) (f' : File) : Type 0 where
  pub before : Run
  pub held : run_at f id ≡ some before
  pub mine : owned before scope ≡ true
  pub was : before.status ≡ failed
  pub below : run_retry_attempt_count before < m
  pub now : r.status ≡ pending
  pub attempts : r.attempt_count ≡ before.attempt_count
  pub kept : run_at f' id ≡ some r

retry_found-Retried :
    (e : Env) (m : ℕ) (id scope : String) (f : File) (runs : Dict Entry) (o : Option Run) {r : Run}
    {f' : File}
    → load f ≡ ok runs
    → owned_run runs id scope ≡ o
    → update_found e (retry_update m) id f runs o ≡ ok (some r, f')
    → Retried m id scope f r f'
unfolding update_found save retry_update
retry_found-Retried e m id scope f runs none l o h = cc
retry_found-Retried e m id scope f runs (some x) {r} {f'} l o h = record {
  before = x;
  held = (owned_run-run_at f runs id scope l o).0;
  mine = (owned_run-run_at f runs id scope l o).1;
  was = ground arith;
  below = ground arith;
  now = ground arith;
  attempts = ground arith;
  kept =
      let e : f' ≡ stored (insert id (run r) runs) = ground arith in rw (e, run_at-stored, eq_refl);
}

-- A retry that returns a run found the owner's run failed, with fewer attempts in the current epoch
-- than the limit; it queues the run again and counts no attempt.
pub retry-Retried :
    (e : Env) (m : ℕ) (id scope : String) (f : File) {r : Run} {f' : File}
    → retry e m id scope f ≡ ok (some r, f')
    → Retried m id scope f r f'
unfolding retry update_owned
retry-Retried e m id scope f h = elim (Bool-cases (ltb m 1)) [
  | inl b ↦ let h' = rw b at h in cc
  | inr b ↦
      let (runs, l, k) =
        found-eq-ok id scope f (update_found e (retry_update m) id f) (rw b at h) in
      retry_found-Retried e m id scope f runs (owned_run runs id scope) l refl k
]
