-- ===== src/Consolidation/Manager.antt =====
-- `MemoryConsolidationManager` of src/xpd_report_agent/api/memory_consolidation.py. Times are numbers
-- of the monotonic clock. The memories at their trigger are what memory_governance.py reports.
use xpd_report_agent.Prelude.{
  take, any, ℕ, zero, suc, ◌+◌, ◌-◌, String, Bool, true, false, not, ◌||◌, Option, none, some, List,
  [], ◌∷◌, ltb, ◌==◌, str_eq, if◌then◌else◌, length, filter,
}
use xpd_report_agent.Prelude.Json.{Json, pos}
use xpd_report_agent.Prelude.Env.{Setting, number, clamp}
use xpd_report_agent.Prelude.Text.{chars, of_chars, strip}
use xpd_report_agent.Prelude.Dict.{Dict, lookup, insert, remove, values}

-- `lower` is Python's `str.lower`.
unfoldable pub env_enabled : (String → String) → Option String → Bool → Bool
env_enabled lower none default = default
env_enabled lower (some value) default =
    any (str_eq (lower (strip value))) ("1" ∷ "true" ∷ "yes" ∷ "on" ∷ [])

unfoldable pub env_int : Setting → ℕ → ℕ → ℕ → ℕ
env_int (number value) default minimum maximum = clamp minimum maximum value
env_int _ default minimum maximum = clamp minimum maximum (pos default)

abbrev pub consolidation_enabled : (String → String) → Option String → Bool
consolidation_enabled lower value = env_enabled lower value true

abbrev pub scan_seconds : Setting → ℕ
scan_seconds s = env_int s 30 10 3600

abbrev pub max_attempts : Setting → ℕ
max_attempts s = env_int s 3 1 5

abbrev pub retry_cooldown_seconds : Setting → ℕ
retry_cooldown_seconds s = env_int s 600 60 86400

-- The entries of `_last_results`, each with its `attempt_count`
pub data LastResult : Type 0 where
  succeeded : ℕ → Option Json → LastResult
  already_below_trigger : ℕ → LastResult
  failed retrying : ℕ → String → LastResult

-- The tasks by their owner, with whether they are done
pub record Manager : Type 0 where
  pub tasks : Dict Bool
  pub last_results : Dict LastResult
  pub retry_after : Dict ℕ

-- What the executor does with a job: its result, an exception with its text and whether its outcome
-- is unknown, or a cancellation.
pub data Execution : Type 0 where
  returned : Option Json → Execution
  exception : String → Bool → Execution
  cancelled : Execution

-- What comes after a failed attempt that is not the last: the sleep, and the reading of the memories,
-- with the targets that are left. A shutdown cancels the sleep; the reading may raise.
pub data Pause : Type 0 where
  left : List Json → Pause
  sleep_cancelled reading_failed : Pause

abbrev pub targets_of : Pause → List Json
targets_of (left targets) = targets
targets_of sleep_cancelled = []
targets_of reading_failed = []

-- A run as its surroundings make it: the executor and the clock at each attempt, the pause after it,
-- and the settings.
pub record Run : Type 0 where
  pub scope : String
  pub execute : ℕ → List Json → Execution
  pub pause : ℕ → Pause
  pub monotonic : ℕ → ℕ
  pub attempts : ℕ
  pub cooldown : ℕ

abbrev pub noted : String → LastResult → Manager → Manager
noted scope r m = record m { last_results = insert scope r m.last_results }

-- The manager when the task ends, and whether it ended by a cancellation or an exception
abbrev pub Ended : Type 0
Ended = Manager × Bool

abbrev error_text : String → String
error_text s = of_chars (take 500 (chars s))

-- The end of an attempt that failed: `go_on` is what further attempts come to.
unfoldable pub after_failure : Run → ℕ → Bool → String → Manager → Pause → Ended → Ended
after_failure r attempt true error m pause go_on = (
  record (noted r.scope (failed attempt (error_text error)) m) {
    retry_after = insert r.scope (r.monotonic attempt + r.cooldown) m.retry_after;
  },
  false,
)
after_failure r attempt false error m (left []) go_on = (
  noted r.scope (already_below_trigger attempt)
      (noted r.scope (retrying attempt (error_text error)) m),
  false,
)
after_failure r attempt false error m (left (t ∷ ts)) go_on = go_on
after_failure r attempt false error m sleep_cancelled go_on =
    (noted r.scope (retrying attempt (error_text error)) m, true)
after_failure r attempt false error m reading_failed go_on =
    (noted r.scope (retrying attempt (error_text error)) m, true)

-- One attempt
unfoldable pub after_attempt : Run → ℕ → Bool → Execution → Manager → Ended → Ended
after_attempt r attempt is_last cancelled m go_on = (m, true)
after_attempt r attempt is_last (returned result) m go_on = (
  record (noted r.scope (succeeded attempt result) m) {
    retry_after = remove r.scope m.retry_after;
  },
  false,
)
after_attempt r attempt is_last (exception error outcome_unknown) m go_on =
    after_failure r attempt (is_last || outcome_unknown) error m (r.pause attempt) go_on

abbrev pub note_failure : Run → ℕ → Execution → Manager → Manager
note_failure r attempt (exception error outcome_unknown) m =
    noted r.scope (retrying attempt (error_text error)) m
note_failure r attempt e m = m

-- The loop of `_run` from an attempt on, with so many attempts left after it
unfoldable pub run_from : Run → ℕ → ℕ → List Json → Manager → Ended
run_from r attempt zero targets m =
    after_attempt r attempt true (r.execute attempt targets) m (m, false)
run_from r attempt (suc further) targets m =
    let e = r.execute attempt targets in
    let go_on =
      run_from r (attempt + 1) further (targets_of (r.pause attempt))
        (note_failure r attempt e m) in
    after_attempt r attempt false e m go_on

-- `_run`; the number of attempts is at least one.
unfoldable pub run : Run → List Json → Manager → Ended
run r targets m = run_from r 1 (r.attempts - 1) targets m

abbrev is_running : Option Bool → Bool
is_running none = false
is_running (some done) = not done

abbrev not_before : Option ℕ → ℕ
not_before none = 0
not_before (some t) = t

-- Whether a task was created, and the manager after it
unfoldable pub schedule_if_needed :
    Bool → (String → List Json) → ℕ → String → Manager → Bool × Manager
schedule_if_needed enabled targets now scope m =
    if not enabled || length (targets scope) == 0
    then (false, m)
    else if ltb now (not_before (lookup scope m.retry_after))
    then (false, m)
    else if is_running (lookup scope m.tasks)
    then (false, m)
    else (true, record m { tasks = insert scope false m.tasks })

-- `remove_finished`, where no other task has taken the place of this one
unfoldable pub remove_finished : String → Manager → Manager
remove_finished scope m = record m { tasks = remove scope m.tasks }

-- How many of the scopes got a task
unfoldable pub scan_and_schedule :
    Bool → (String → List Json) → ℕ → List String → Manager → ℕ × Manager
scan_and_schedule enabled targets now [] m = (0, m)
scan_and_schedule enabled targets now (scope ∷ scopes) m =
    let (created, next) = schedule_if_needed enabled targets now scope m in
    let (n, after) = scan_and_schedule enabled targets now scopes next in
    ((if created then n + 1 else n), after)

abbrev is_failed : LastResult → Bool
is_failed (failed n e) = true
is_failed _ = false

-- The numbers of `health`: the tasks that run, and the owners whose last result is a failure
unfoldable pub active_tasks : Manager → ℕ
active_tasks m = length (filter (λ done. not done) (values m.tasks))

unfoldable pub recent_failures : Manager → ℕ
recent_failures m = length (filter is_failed (values m.last_results))
