-- ===== src/Capacity/Slots.antt =====
-- src/xpd_report_agent/api/agent_capacity.py: the configured limit, and `_AgentCapacity`. A step is
-- what one task does between two points where the event loop may switch tasks; `free` is the value
-- of the semaphore, and `tasks` is where each call of `slot` stands.
use xpd_report_agent.Prelude.{
  ◌*◌, ℕ, zero, suc, ◌+◌, ◌-◌, String, Bool, true, false, not, ◌&&◌, ◌||◌, Option, none, some, List,
  [], ◌∷◌, ltb, leb, ◌==◌, str_eq, if◌then◌else◌, length, filter, min, max,
}
use xpd_report_agent.Prelude.Text.{strip, chars, of_chars}
use xpd_report_agent.Prelude.Env.{Setting, number, clamp}
use xpd_report_agent.Prelude.Result.{Outcome, ok, err}
use Prim.Native.Char.{Char, code}
use mathlib.Core.List.{reverse}

abbrev pub default_agent_max_concurrency : ℕ
default_agent_max_concurrency = 3

abbrev pub min_agent_max_concurrency : ℕ
min_agent_max_concurrency = 1

abbrev pub max_agent_max_concurrency : ℕ
max_agent_max_concurrency = 50

abbrev pub multi_node_concurrency_per_node : ℕ
multi_node_concurrency_per_node = 7

abbrev pub multi_node_default_max_concurrency : ℕ
multi_node_default_max_concurrency = 20

-- `configured.split(",")`, the part before the first comma being `part`, reversed
unfoldable pub split_commas : List Char → List Char → List String
split_commas part [] = of_chars (reverse part) ∷ []
split_commas part (c ∷ s) =
    let here = split_commas [] s in
    let more = split_commas (c ∷ part) s in
    if code c == b',' then of_chars (reverse part) ∷ here else more

unfoldable pub configured_hermes_node_count : String → ℕ
configured_hermes_node_count raw =
    let configured = strip raw in
    if str_eq configured ""
    then 1
    else max 1
        (length (filter (λ e. not (str_eq (strip e) "")) (split_commas [] (chars configured))))

unfoldable pub default_limit : ℕ → ℕ
default_limit node_count =
    if leb node_count 1
    then default_agent_max_concurrency
    else min multi_node_default_max_concurrency (node_count * multi_node_concurrency_per_node)

-- The setting and the list of nodes are variables of the environment.
unfoldable pub agent_max_concurrency : Setting → String → ℕ
agent_max_concurrency (number n) nodes = clamp min_agent_max_concurrency max_agent_max_concurrency n
agent_max_concurrency _ nodes =
    max min_agent_max_concurrency
      (min max_agent_max_concurrency (default_limit (configured_hermes_node_count nodes)))

-- Where a call of `slot` stands.
pub data Phase : Type 0 where
  queued holding gone : Phase

abbrev pub is_queued : Phase → Bool
is_queued queued = true
is_queued _ = false

abbrev pub is_holding : Phase → Bool
is_holding holding = true
is_holding _ = false

-- `_LoopState`, with the calls of `slot` on its loop
pub record LoopState : Type 0 where
  pub loop : ℕ
  pub limit : ℕ
  pub free : ℕ
  pub active : ℕ
  pub waiting : ℕ
  pub tasks : List Phase

unfoldable pub fresh_state : ℕ → ℕ → LoopState
fresh_state loop limit = record {
  loop = loop;
  limit = limit;
  free = limit;
  active = 0;
  waiting = 0;
  tasks = [];
}

pub data CapacityError : Type 0 where
  concurrent_loops unfinished_work : CapacityError

-- `_state_for_running_loop`: `closed` tells which loops are closed
unfoldable pub state_for_loop :
    (ℕ → Bool) → ℕ → ℕ → Option LoopState → Outcome CapacityError LoopState
state_for_loop closed loop limit none = ok (fresh_state loop limit)
state_for_loop closed loop limit (some s) =
    if s.loop == loop
    then ok s
    else if not (closed s.loop)
    then err concurrent_loops
    else if not (s.active == 0) || not (s.waiting == 0)
    then err unfinished_work
    else ok (fresh_state loop limit)

-- What happens at a step: a call of `slot` begins; the semaphore lets a call in, which stands at
-- this place of the list, the newest first; its wait is cancelled; it leaves the block, also by an exception.
pub data Event : Type 0 where
  begin : Event
  acquire cancel release : ℕ → Event

-- The task with the number goes from one phase to another, if it is in the first.
unfoldable pub change : (Phase → Bool) → Phase → ℕ → List Phase → Option (List Phase)
change from to n [] = none
change from to zero (t ∷ ts) = if from t then some (to ∷ ts) else none
change from to (suc n) (t ∷ ts) = elim (change from to n ts) [
  | none ↦ none
  | some us ↦ some (t ∷ us)
]

-- A step with the tasks after it. A step that cannot happen gives `none`.
unfoldable pub acquired : LoopState → Option (List Phase) → Option LoopState
acquired s none = none
acquired s (some tasks) =
    if ltb 0 s.free
    then some (record s {
      free = s.free - 1;
      waiting = s.waiting - 1;
      active = s.active + 1;
      tasks = tasks;
    })
    else none

unfoldable pub cancelled : LoopState → Option (List Phase) → Option LoopState
cancelled s none = none
cancelled s (some tasks) = some (record s { waiting = s.waiting - 1; tasks = tasks })

unfoldable pub released : LoopState → Option (List Phase) → Option LoopState
released s none = none
released s (some tasks) =
    some (record s { free = s.free + 1; active = s.active - 1; tasks = tasks })

unfoldable pub step : Event → LoopState → Option LoopState
step begin s = some (record s { waiting = s.waiting + 1; tasks = queued ∷ s.tasks })
step (acquire n) s = acquired s (change is_queued holding n s.tasks)
step (cancel n) s = cancelled s (change is_queued gone n s.tasks)
step (release n) s = released s (change is_holding gone n s.tasks)

unfoldable pub steps : List Event → LoopState → Option LoopState
steps [] s = some s
steps (e ∷ es) s = elim (step e s) [ none ↦ none | some t ↦ steps es t ]

pub record Health : Type 0 where
  pub limit : ℕ
  pub active : ℕ
  pub waiting : ℕ

unfoldable pub health : (ℕ → Bool) → ℕ → Option LoopState → Health
health closed limit none = record { limit = limit; active = 0; waiting = 0 }
health closed limit (some s) =
    if closed s.loop && s.active == 0 && s.waiting == 0
    then record { limit = limit; active = 0; waiting = 0 }
    else record { limit = s.limit; active = s.active; waiting = s.waiting }
