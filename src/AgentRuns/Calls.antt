-- ===== src/AgentRuns/Calls.antt =====
-- Single calls of the store in src/xpd_report_agent/api/agent_runs.py, and pairs of calls.
pub mod Create
pub mod Claim
pub mod Retry
pub mod Answer
pub mod Replay
pub mod Corrupt
pub mod Listing
use xpd_report_agent.Prelude.{String, ◌≡◌, Option}
use xpd_report_agent.Prelude.Dict.{Dict}
use xpd_report_agent.AgentRuns.Run.{Run, Entry, Result, ok, ◌>>=◌, >>=-eq-ok}
use xpd_report_agent.AgentRuns.Validate.{validate_identity, validate_identity-eq}
use xpd_report_agent.AgentRuns.File.{File, load}
use xpd_report_agent.AgentRuns.Store.{owned_run}

-- A successful operation on one run has read the file and looked the run up.
pub found-eq-ok :
    {B : Type 0} (id scope : String) (f : File) (k : Dict Entry → Option Run → Result B) {b : B}
    → (do s ← validate_identity scope; runs ← load f; k runs (owned_run runs id s)) ≡ ok b
    → (runs : Dict Entry) × (load f ≡ ok runs) × (k runs (owned_run runs id scope) ≡ ok b)
found-eq-ok id scope f k h =
    let (s, p, h1) = >>=-eq-ok (validate_identity scope) _ h in
    let (runs, l, h2) = >>=-eq-ok (load f) _ h1 in
    (runs, l, rw (validate_identity-eq scope p) at h2)
