-- ===== src/Consolidation/Tests.antt =====
-- Tests of Consolidation on concrete runs.
use xpd_report_agent.Prelude.{◌*◌, ℕ, ◌≡◌, refl, ◌≢◌, true, false, List, [], ◌∷◌, arith, ◌==◌}
use xpd_report_agent.Prelude.Json.{Json}
use xpd_report_agent.Prelude.Text.{strip}
use xpd_report_agent.Prelude.Env.{malformed}
use xpd_report_agent.Prelude.Dict.{lookup, insert, remove}
use xpd_report_agent.Consolidation.Manager.{
  failed, Manager, Execution, exception, cancelled, left, sleep_cancelled, Run, retrying,
  after_failure, after_attempt, run_from, run, schedule_if_needed, scan_and_schedule, env_int,
  env_enabled, scan_seconds,
}
use xpd_report_agent.Consolidation.Verdict.{HasVerdict, run-HasVerdict}

program : Unit {0}
unfolding lookup insert remove after_failure after_attempt run_from run schedule_if_needed
    scan_and_schedule env_int env_enabled strip
program = tt

abbrev empty : Manager
empty = record { tasks = []; last_results = []; retry_after = [] }

abbrev target : List Json
target = Json.str "MEMORY.md" ∷ []

-- The first attempt fails with a known outcome, the second with an unknown one.
abbrev execute : ℕ → List Json → Execution
execute n targets = exception "busy" (n == 2)

abbrev two_failures : Run
two_failures = record {
  scope = "u1";
  execute = execute;
  pause = λ n. left target;
  monotonic = λ n. 100 * n;
  attempts = 3;
  cooldown = 600;
}

stops_at_unknown : run two_failures target empty ≡ (
  record {
    tasks = [];
    last_results = ("u1", failed 2 "busy") ∷ [];
    retry_after = ("u1", 800) ∷ [];
  },
  false,
)
unfolding program
stops_at_unknown = refl

-- A shutdown during the sleep leaves the owner as retrying, without a cooldown.
stopped_in_sleep :
    run (record two_failures { pause = λ n. sleep_cancelled }) target empty
    ≡ (record { tasks = []; last_results = ("u1", retrying 1 "busy") ∷ []; retry_after = [] }, true)
unfolding program
stopped_in_sleep = refl

cools_down :
    (schedule_if_needed true (λ s. target) 799 "u1" (run two_failures target empty).0).0 ≡ false
unfolding program
cools_down = refl

one_each : (scan_and_schedule true (λ s. target) 5 ("u1" ∷ "u2" ∷ "u1" ∷ []) empty).0 ≡ 2
unfolding program
one_each = refl

default_scan : scan_seconds malformed ≡ 30
unfolding program
default_scan = refl

not_cancelled : (n : ℕ) (targets : List Json) → execute n targets ≢ cancelled
not_cancelled n targets = λ h. absurd (ground arith)

run-HasVerdict_example : HasVerdict two_failures 3 (run two_failures target empty)
run-HasVerdict_example =
    run-HasVerdict two_failures target empty (omega arith) not_cancelled (λ n. (target, refl))
