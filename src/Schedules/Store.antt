-- ===== src/Schedules/Store.antt =====
-- `ScheduleStore` of src/xpd_report_agent/api/schedule_store.py, without `claim_run`. Records have the
-- keys that the store reads or writes; a value that is no JSON object is left out of the two
-- dictionaries, since every operation passes over it. The updates of `update` and `update_run`, given
-- there as dictionaries, are functions on records.
use xpd_report_agent.Prelude.{
  any, ℕ, String, Bool, true, false, not, Option, none, some, List, [], str_eq, if◌then◌else◌,
  filter,
}
use xpd_report_agent.Prelude.Dict.{Dict, lookup, insert, remove, values}
use xpd_report_agent.Prelude.Sort.{sort}
use xpd_report_agent.Prelude.Text.{text_le}
use xpd_report_agent.Prelude.Json.{Json}
use xpd_report_agent.Prelude.Result.{Outcome, ok, err, guard, ◌>>=◌, ◌>>◌}

pub data ScheduleError : Type 0 where
  schedule_exists invalid_token os_error : ScheduleError

pub record Schedule : Type 0 where
  pub schedule_id : String
  pub owner_scope : String
  pub report_type : String
  pub format : String
  pub frequency : String
  pub enabled : Bool
  pub state : String
  pub callback_token : String
  pub pending_manual_run_id : Option String
  pub last_callback_at : Option String
  pub last_callback_run_id : Option String
  pub last_run_at : Option String
  pub last_status : Option String
  pub last_error : Json
  pub created_at : String
  pub updated_at : String

pub record ScheduledRun : Type 0 where
  pub run_id : String
  pub schedule_id : String
  pub owner_scope : String
  pub session_id : String
  pub report_type : String
  pub report_format : String
  pub status : String
  pub trigger_type : String
  pub scheduled_for : String
  pub attempt_count : ℕ
  pub submission_started : Bool
  pub error_summary : Json
  pub created_at : String
  pub started_at : Option String
  pub completed_at : Option String

-- `taken` are the ids of the entries of `schedules` that are no objects.
pub record Schedules : Type 0 where
  pub schedules : Dict Schedule
  pub runs : Dict ScheduledRun
  pub taken : List String

-- `unusable` is a file that is missing, cannot be read, or has another form.
pub data ScheduleFile : Type 0 where
  unusable : ScheduleFile
  stored : Schedules → ScheduleFile

unfoldable pub load_schedules : ScheduleFile → Schedules
load_schedules unusable = record { schedules = []; runs = []; taken = [] }
load_schedules (stored s) = s

-- What an operation reads from outside: the clock, fresh random texts, the calendar of the report's
-- time zone, the age of an instant where it can be parsed, in seconds
-- rounded up and 0 for the future, the name of a digest, and
-- whether the file can be written.
pub record Outside : Type 0 where
  pub utc_now : String
  pub token : String
  pub date : String
  pub monday : String
  pub minute : String
  pub age : String → Option ℕ
  pub digest : String → String
  pub disk : Bool

unfoldable pub save_schedules : Outside → Schedules → Outcome ScheduleError ScheduleFile
save_schedules w s = if w.disk then ok (stored s) else err os_error

-- `str(value or "")`
abbrev pub text_of : Option String → String
text_of none = ""
text_of (some t) = t

unfoldable pub create : Outside → Schedule → ScheduleFile → Outcome ScheduleError ScheduleFile
create w sch f = do
  let s = load_schedules f
  guard (elim (lookup sch.schedule_id s.schedules) [ none ↦ true | some _ ↦ false ]) schedule_exists
  guard (not (any (str_eq sch.schedule_id) s.taken)) schedule_exists
  save_schedules w (record s { schedules = insert sch.schedule_id sch s.schedules })

-- A record of another owner is not shown.
unfoldable pub if_owned : String → Option Schedule → Option Schedule
if_owned owner none = none
if_owned owner (some sch) = if str_eq sch.owner_scope owner then some sch else none

unfoldable pub get_owned : String → String → ScheduleFile → Option Schedule
get_owned schedule_id owner f = if_owned owner (lookup schedule_id (load_schedules f).schedules)

-- Newest first; `sort` with `reverse=True` keeps the order of equal keys.
abbrev pub newer : Schedule → Schedule → Bool
newer a b = text_le b.created_at a.created_at

unfoldable pub list_owned : String → ScheduleFile → List Schedule
list_owned owner f =
    sort newer (filter (λ sch. str_eq sch.owner_scope owner) (values (load_schedules f).schedules))

-- Writes back one schedule.
abbrev pub with_schedule : String → Schedule → Schedules → Schedules
with_schedule schedule_id sch s = record s { schedules = insert schedule_id sch s.schedules }

unfoldable pub update_found :
    Outside
    → (Schedule → Schedule)
    → String
    → ScheduleFile
    → Option Schedule
    → Outcome ScheduleError (Option Schedule × ScheduleFile)
update_found w updates schedule_id f none = ok (none, f)
update_found w updates schedule_id f (some sch) = do
  let updated = record (updates sch) { updated_at = w.utc_now }
  g ← save_schedules w (with_schedule schedule_id updated (load_schedules f))
  ok (some updated, g)

unfoldable pub update :
    Outside
    → (Schedule → Schedule)
    → String
    → ScheduleFile
    → Outcome ScheduleError (Option Schedule × ScheduleFile)
update w updates schedule_id f =
    update_found w updates schedule_id f (lookup schedule_id (load_schedules f).schedules)

unfoldable pub remove_found :
    Outside
    → String
    → ScheduleFile
    → Option Schedule
    → Outcome ScheduleError (Option Schedule × ScheduleFile)
remove_found w schedule_id f none = ok (none, f)
remove_found w schedule_id f (some sch) = do
  let s = load_schedules f
  g ← save_schedules w (record s { schedules = remove schedule_id s.schedules })
  ok (some sch, g)

unfoldable pub remove_owned :
    Outside
    → String
    → String
    → ScheduleFile
    → Outcome ScheduleError (Option Schedule × ScheduleFile)
remove_owned w schedule_id owner f = remove_found w schedule_id f (get_owned schedule_id owner f)

unfoldable pub trigger_found :
    Outside
    → String
    → ScheduleFile
    → Option Schedule
    → Outcome ScheduleError (Option String × ScheduleFile)
trigger_found w schedule_id f none = ok (none, f)
trigger_found w schedule_id f (some sch) =
    if not (str_eq (text_of sch.pending_manual_run_id) "")
    then ok (some (text_of sch.pending_manual_run_id), f)
    else (do
      let marked = record sch { pending_manual_run_id = some w.token; updated_at = w.utc_now }
      g ← save_schedules w (with_schedule schedule_id marked (load_schedules f))
      ok (some w.token, g))

unfoldable pub set_manual_trigger :
    Outside → String → String → ScheduleFile → Outcome ScheduleError (Option String × ScheduleFile)
set_manual_trigger w schedule_id owner f =
    trigger_found w schedule_id f (get_owned schedule_id owner f)

unfoldable pub clear_found :
    Outside → String → String → ScheduleFile → Option Schedule → Outcome ScheduleError ScheduleFile
clear_found w schedule_id marker f none = ok f
clear_found w schedule_id marker f (some sch) =
    if str_eq (text_of sch.pending_manual_run_id) marker
    then save_schedules w (
        with_schedule schedule_id
          (record sch { pending_manual_run_id = none; updated_at = w.utc_now }) (load_schedules f))
    else ok f

unfoldable pub clear_manual_trigger :
    Outside → String → String → ScheduleFile → Outcome ScheduleError ScheduleFile
clear_manual_trigger w schedule_id marker f =
    clear_found w schedule_id marker f (lookup schedule_id (load_schedules f).schedules)
