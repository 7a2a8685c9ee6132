-- ===== src/Reflections/Tests.antt =====
-- A small run of the queue of src/xpd_report_agent/api/reflections.py.
use xpd_report_agent.Prelude.{ℕ, String, ◌≡◌, refl, Bool, true, false, some, List, [], ◌∷◌}
use xpd_report_agent.Prelude.Dict.{lookup, insert, remove}
use xpd_report_agent.Prelude.Json.{Json}
use xpd_report_agent.Reflections.Queue.{
  failed, Job, unusable, load_jobs, can_auto_run, Request, new_job, may_begin, begun, Failure,
  failed_with, goes_on, succeeded_with, closed, may_retry, retried,
}
use xpd_report_agent.Reflections.Steps.{
  World, spawn, spawn_all, spawn_if, schedule_found, begin_found, fail_found, succeed_found,
  retry_found, close_all, resumable, resume_pending, delete_for_session, Event, schedule, begin,
  fail, succeed, retry, resume, delete, step, steps,
}
use xpd_report_agent.Reflections.Untouched.{calls_of}
use xpd_report_agent.Reflections.Attempts.{AllWithin, steps-AllWithin}

program : Unit {0}
unfolding lookup insert remove load_jobs can_auto_run new_job may_begin begun failed_with goes_on
    succeeded_with closed may_retry retried spawn spawn_all spawn_if schedule_found begin_found
    fail_found succeed_found retry_found close_all resumable resume_pending delete_for_session step
    steps
program = tt

abbrev digest : String → ℕ → String
digest session turn_end = session

abbrev empty : World
empty = record { file = unusable; tasks = []; calls = [] }

abbrev request : Request
request = record { session_id = "s"; owner_scope = "o"; end_reason = "closed"; utc_now = "t0" }

abbrev busy : Failure
busy = record { summary = "busy"; retryable = true; outcome_unknown = false }

abbrev lost : Failure
lost = record { summary = "lost"; retryable = true; outcome_unknown = true }

abbrev first : List (Bool × Event)
first =
    (true, schedule request 3)
    ∷ (true, begin "s")
    ∷ (true, fail busy "s")
    ∷ (true, begin "s")
    ∷ (true, fail lost "s")
    ∷ []

abbrev after : World
after = steps digest 3 first empty

abbrev lost_job : Job
lost_job = record (new_job request 3) {
  status = failed;
  attempt_count = 2;
  error_summary = some "lost";
  retryable = some true;
  outcome_unknown = true;
}

abbrev later : List (Bool × Event)
later =
    (true, retry "s")
    ∷ (true, schedule request 3)
    ∷ (true, resume)
    ∷ (true, begin "s")
    ∷ (true, delete "other")
    ∷ []

called_twice : calls_of "s" after ≡ 2
unfolding program
called_twice = refl

succeeds : (steps digest 3 ((true, succeed "t1" Json.null "s") ∷ []) after).tasks ≡ []
unfolding program
succeeds = refl

steps-AllWithin_example : AllWithin 3 after
unfolding program
steps-AllWithin_example = steps-AllWithin 3 digest first empty tt
