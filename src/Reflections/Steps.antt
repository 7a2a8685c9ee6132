-- ===== src/Reflections/Steps.antt =====
-- The steps of `ReflectionQueue` (src/xpd_report_agent/api/reflections.py): its methods, and what a
-- task of `_run` does between two points where others may run. The methods are called on a running
-- event loop.
use xpd_report_agent.Prelude.{
  map, any, ℕ, String, Bool, true, false, not, ◌&&◌, ◌||◌, Option, none, some, List, [], ◌∷◌, ◌==◌,
  str_eq, if◌then◌else◌, length, filter,
}
use xpd_report_agent.Prelude.Dict.{Dict, lookup, insert, remove}
use xpd_report_agent.Prelude.Json.{Json}
use xpd_report_agent.Reflections.Queue.{
  is_running, Job, JobFile, stored, load_jobs, can_auto_run, Request, new_job, may_begin, begun,
  Failure, failed_with, goes_on, succeeded_with, closed, may_retry, retried,
}

-- A task waits for its slot or its delay, or its executor runs.
pub data Phase : Type 0 where
  waiting executing : Phase

abbrev pub is_waiting : Option Phase → Bool
is_waiting (some waiting) = true
is_waiting _ = false

abbrev pub is_executing : Option Phase → Bool
is_executing (some executing) = true
is_executing _ = false

-- The file, the tasks that are not done, by job, and the jobs that the executor was called for.
pub record World : Type 0 where
  pub file : JobFile
  pub tasks : Dict Phase
  pub calls : List String

abbrev pub jobs : World → Dict Job
jobs w = load_jobs w.file

-- `_spawn`: a job has one task at most
unfoldable pub spawn : String → Dict Phase → Dict Phase
spawn job_id tasks = elim (lookup job_id tasks) [
  | none ↦ insert job_id waiting tasks
  | some _ ↦ tasks
]

unfoldable pub spawn_all : List String → Dict Phase → Dict Phase
spawn_all [] tasks = tasks
spawn_all (job_id ∷ ids) tasks = spawn_all ids (spawn job_id tasks)

unfoldable pub spawn_if : Bool → String → World → World
spawn_if runs job_id w = record w { tasks = if runs then spawn job_id w.tasks else w.tasks }

abbrev pub task_done : String → World → World
task_done job_id w = record w { tasks = remove job_id w.tasks }

abbrev pub write_job : String → Job → World → World
write_job job_id j w = record w { file = stored (insert job_id j (jobs w)) }

-- `schedule` behind its lookup. `disk` tells whether the file can be written; where it cannot, the
-- exception ends the call.
unfoldable pub schedule_found : ℕ → Bool → Request → ℕ → String → Option Job → World → World
schedule_found max_attempts disk q turn_end job_id (some j) w =
    spawn_if (can_auto_run max_attempts j) job_id w
schedule_found max_attempts disk q turn_end job_id none w =
    if disk
    then spawn_if (can_auto_run max_attempts (new_job q turn_end)) job_id
        (write_job job_id (new_job q turn_end) w)
    else w

-- A task takes its slot, and begins an attempt or ends.
unfoldable pub begin_found : ℕ → Bool → String → Option Job → World → World
begin_found max_attempts disk job_id none w = task_done job_id w
begin_found max_attempts disk job_id (some j) w =
    if may_begin max_attempts j && disk
    then record (write_job job_id (begun j) w) {
      tasks = insert job_id executing w.tasks;
      calls = job_id ∷ w.calls;
    }
    else task_done job_id w

unfoldable pub fail_found : ℕ → Bool → Failure → String → Option Job → World → World
fail_found max_attempts disk e job_id none w = task_done job_id w
fail_found max_attempts disk e job_id (some j) w =
    if not disk
    then task_done job_id w
    else if goes_on max_attempts e j
    then record (write_job job_id (failed_with e j) w) { tasks = insert job_id waiting w.tasks }
    else task_done job_id (write_job job_id (failed_with e j) w)

unfoldable pub succeed_found : Bool → String → Json → String → Option Job → World → World
succeed_found disk utc_now result job_id none w = task_done job_id w
succeed_found disk utc_now result job_id (some j) w =
    if disk
    then task_done job_id (write_job job_id (succeeded_with utc_now result j) w)
    else task_done job_id w

unfoldable pub retry_found : Bool → String → Option Job → World → World
retry_found disk job_id none w = w
retry_found disk job_id (some j) w =
    if may_retry j && disk then spawn_if true job_id (write_job job_id (retried j) w) else w

-- `resume_pending`: `close_all` on the jobs, and the ids of those that may run
unfoldable pub close_all : Dict Job → Dict Job
close_all [] = []
close_all ((k, j) ∷ d) = (k, closed j) ∷ close_all d

unfoldable pub resumable : ℕ → Dict Job → List String
resumable max_attempts d = map (λ e. e.0) (filter (λ e. can_auto_run max_attempts e.1) d)

unfoldable pub resume_pending : ℕ → Bool → World → World
resume_pending max_attempts disk w =
    let after = close_all (jobs w) in
    let changed = any (λ e. is_running e.1.status) (jobs w) in
    if changed && not disk then w else record w {
      file = if changed then stored after else w.file;
      tasks = spawn_all (resumable max_attempts after) w.tasks;
    }

-- A file without a job of the session is not written.
unfoldable pub delete_for_session : Bool → String → World → World
delete_for_session disk session_id w =
    let kept = filter (λ e. not (str_eq e.1.session_id session_id)) (jobs w) in
    if length kept == length (jobs w) || not disk then w else record w { file = stored kept }

-- A call of a method, or a step of the task of a job.
pub data Event : Type 0 where
  schedule : Request → ℕ → Event
  begin : String → Event
  fail : Failure → String → Event
  succeed : String → Json → String → Event
  retry : String → Event
  resume : Event
  delete : String → Event

-- `digest` is the job's id for a session and a turn, as `idempotency_key` computes it. A step of a
-- task that does not stand there does not happen.
unfoldable pub step : (String → ℕ → String) → ℕ → Bool × Event → World → World
step digest max_attempts (disk, schedule q turn_end) w =
    let job_id = digest q.session_id turn_end in
    if turn_end == 0
    then w
    else schedule_found max_attempts disk q turn_end job_id (lookup job_id (jobs w)) w
step digest max_attempts (disk, begin job_id) w =
    if is_waiting (lookup job_id w.tasks)
    then begin_found max_attempts disk job_id (lookup job_id (jobs w)) w
    else w
step digest max_attempts (disk, fail e job_id) w =
    if is_executing (lookup job_id w.tasks)
    then fail_found max_attempts disk e job_id (lookup job_id (jobs w)) w
    else w
step digest max_attempts (disk, succeed utc_now result job_id) w =
    if is_executing (lookup job_id w.tasks)
    then succeed_found disk utc_now result job_id (lookup job_id (jobs w)) w
    else w
step digest max_attempts (disk, retry job_id) w = retry_found disk job_id (lookup job_id (jobs w)) w
step digest max_attempts (disk, resume) w = resume_pending max_attempts disk w
step digest max_attempts (disk, delete session_id) w = delete_for_session disk session_id w

unfoldable pub steps : (String → ℕ → String) → ℕ → List (Bool × Event) → World → World
steps digest max_attempts [] w = w
steps digest max_attempts (e ∷ es) w = steps digest max_attempts es (step digest max_attempts e w)
