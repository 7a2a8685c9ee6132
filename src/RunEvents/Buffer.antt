-- ===== src/RunEvents/Buffer.antt =====
-- The event buffer of src/xpd_report_agent/api/sessions.py: `_publish_agent_run_event` and its readers.
use xpd_report_agent.Prelude.{
  drop, ℕ, ◌+◌, ◌-◌, String, Bool, true, false, ◌&&◌, Option, none, some, List, [], ◌∷◌, ◌++◌, map,
  ltb, leb, ◌==◌, str_eq, if◌then◌else◌, length, filter,
}
use xpd_report_agent.Prelude.Json.{Json, Fields, truthy, get}
use xpd_report_agent.Prelude.Text.{append}
use xpd_report_agent.Prelude.Dict.{Dict, lookup, insert}
use xpd_report_agent.Prelude.Result.{Outcome, ok, err}

pub record Event : Type 0 where
  pub id : ℕ
  pub event : String
  pub payload : Fields
  pub dedupe_key : Option String

-- `_agent_run_events` and `_agent_run_next_event_id`
pub record Buffer : Type 0 where
  pub runs : Dict (List Event)
  pub next_event_id : ℕ

abbrev pub max_runs : ℕ
max_runs = 512

abbrev pub max_events : ℕ
max_events = 2000

-- `2 ** 53 - 1`
abbrev pub max_sse_event_id : ℕ
max_sse_event_id = 9007199254740991

abbrev pub entries_of : Option (List Event) → List Event
entries_of none = []
entries_of (some es) = es

abbrev pub is_new {ℓ} : {A : Type ℓ} → Option A → Bool
is_new none = true
is_new (some _) = false

-- A new run takes the place of the oldest where there are too many.
unfoldable pub with_run : String → Dict (List Event) → Dict (List Event)
with_run run_id runs =
    if is_new (lookup run_id runs)
    then insert run_id [] (if leb max_runs (length runs) then drop 1 runs else runs)
    else runs

abbrev has_key : String → Option String → Bool
has_key key none = false
has_key key (some k) = str_eq k key

-- The id of the first event with the key
unfoldable pub find_key : Option String → List Event → Option ℕ
find_key none es = none
find_key (some key) [] = none
find_key (some key) (e ∷ es) =
    if has_key key e.dedupe_key then some e.id else find_key (some key) es

-- `del entries[: len(entries) - 2_000]`, if there are more
unfoldable pub trimmed : List Event → List Event
trimmed es = if ltb max_events (length es) then drop (length es - max_events) es else es

-- The `RuntimeError` where the ids are used up
pub data Exhausted : Type 0 where
  ids_exhausted : Exhausted

-- `_publish_agent_run_event` behind the search for its key; `runs` has an entry for the run.
unfoldable pub publish_unless :
    String
    → String
    → Fields
    → Option String
    → Dict (List Event)
    → ℕ
    → Option ℕ
    → Outcome Exhausted ℕ × Buffer
publish_unless run_id event payload dedupe_key runs next_id (some id) =
    (ok id, record { runs = runs; next_event_id = next_id })
publish_unless run_id event payload dedupe_key runs next_id none =
    let e : Event = record {
      id = next_id;
      event = event;
      payload = payload;
      dedupe_key = dedupe_key;
    } in
    if ltb max_sse_event_id next_id
    then (err ids_exhausted, record { runs = runs; next_event_id = next_id })
    else (
      ok next_id,
      record {
        runs = insert run_id (trimmed (entries_of (lookup run_id runs) ++ e ∷ [])) runs;
        next_event_id = next_id + 1;
      },
    )

unfoldable pub publish :
    String → String → Fields → Option String → Buffer → Outcome Exhausted ℕ × Buffer
publish run_id event payload dedupe_key b =
    let runs = with_run run_id b.runs in
    publish_unless run_id event payload dedupe_key runs b.next_event_id
      (find_key dedupe_key (entries_of (lookup run_id runs)))

-- `_agent_run_events_after`
unfoldable pub events_after : String → ℕ → Buffer → List (ℕ × String × Fields)
events_after run_id last_event_id b =
    map (λ e. (e.id, e.event, e.payload))
      (filter (λ e. ltb last_event_id e.id) (entries_of (lookup run_id b.runs)))

unfoldable pub has_buffered_events : String → Buffer → Bool
has_buffered_events run_id b = ltb 0 (length (entries_of (lookup run_id b.runs)))

-- `str(payload.get("delta") or "")` and `int(payload.get("attempt_count") or 0)`, for `str` and `int`
-- of a JSON value
abbrev delta_of : (Json → String) → Option Json → String
delta_of str_of none = ""
delta_of str_of (some v) = if truthy v then str_of v else ""

abbrev count_of : (Json → ℕ) → Option Json → ℕ
count_of int_of none = 0
count_of int_of (some v) = if truthy v then int_of v else 0

abbrev is_delta_of : (Json → ℕ) → ℕ → Event → Bool
is_delta_of int_of attempt_count e =
    str_eq e.event "answer.delta"
    && count_of int_of (get "attempt_count" e.payload) == attempt_count

abbrev joined : List String → String
joined [] = ""
joined (s ∷ ss) = append s (joined ss)

unfoldable pub buffered_agent_answer : (Json → String) → (Json → ℕ) → String → ℕ → Buffer → String
buffered_agent_answer str_of int_of run_id attempt_count b = joined (
    map (λ e. delta_of str_of (get "delta" e.payload))
      (filter (is_delta_of int_of attempt_count) (entries_of (lookup run_id b.runs))))
