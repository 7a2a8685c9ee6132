-- ===== src/Schedules/Claim.antt =====
-- The operations on runs of `ScheduleStore` (src/xpd_report_agent/api/schedule_store.py): `claim_run`,
-- `update_run`, `resumable_run_ids` and `delete_run_for_session`.
use xpd_report_agent.Prelude.{
  take, ℕ, String, Bool, true, false, not, ◌&&◌, ◌||◌, Option, none, some, List, map, ltb, leb,
  ◌==◌, str_eq, if◌then◌else◌, length, filter,
}
use xpd_report_agent.Prelude.Text.{append, chars, of_chars}
use xpd_report_agent.Prelude.Dict.{Dict, lookup, insert}
use xpd_report_agent.Prelude.Json.{Json}
use xpd_report_agent.Prelude.Result.{Outcome, ok, err, ◌>>=◌}
use xpd_report_agent.Schedules.Store.{
  ScheduleError, invalid_token, Schedule, ScheduledRun, Schedules, ScheduleFile, Outside,
  load_schedules, save_schedules, text_of,
}

-- `_period_key`
unfoldable pub period_key : Outside → Schedule → String
period_key w sch =
    if str_eq sch.frequency "once"
    then "once"
    else if str_eq sch.frequency "daily"
    then append "day:" w.date
    else append "week:" w.monday

-- The run of the last callback, if that was at most 90 seconds ago.
unfoldable pub recent_run : Outside → Schedules → Schedule → Option ScheduledRun
recent_run w s sch =
    if str_eq (text_of sch.last_callback_at) "" || str_eq (text_of sch.last_callback_run_id) ""
    then none
    else elim (w.age (text_of sch.last_callback_at)) [
      | none ↦ none
      | some seconds ↦
          if leb seconds 90 then lookup (text_of sch.last_callback_run_id) s.runs else none
    ]

abbrev pub is_manual : Schedule → Bool
is_manual sch = not (str_eq (text_of sch.pending_manual_run_id) "")

unfoldable pub run_key : Outside → Schedule → String
run_key w sch =
    if is_manual sch then append "manual:" (text_of sch.pending_manual_run_id) else period_key w sch

unfoldable pub run_id_of : Outside → String → String → String
run_id_of w schedule_id key =
    append "run_" (of_chars (take 32 (chars (w.digest (append schedule_id (append ":" key))))))

unfoldable pub new_run : Outside → String → Schedule → ScheduledRun
new_run w schedule_id sch = record {
  run_id = run_id_of w schedule_id (run_key w sch);
  schedule_id = schedule_id;
  owner_scope = sch.owner_scope;
  session_id = append "xpd_" (append sch.owner_scope (append "_scheduled_" w.token));
  report_type = sch.report_type;
  report_format = sch.format;
  status = "pending";
  trigger_type = if is_manual sch then "manual" else "scheduled";
  scheduled_for = w.minute;
  attempt_count = 0;
  submission_started = false;
  error_summary = Json.null;
  created_at = w.utc_now;
  started_at = none;
  completed_at = none;
}

-- The assignments of `claim_run` to the schedule.
unfoldable pub claimed : Outside → ScheduledRun → Schedule → Schedule
claimed w r sch = record sch {
  pending_manual_run_id = if is_manual sch then none else sch.pending_manual_run_id;
  last_run_at = some r.scheduled_for;
  last_status = some "pending";
  last_error = Json.null;
  last_callback_at = some w.utc_now;
  last_callback_run_id = some r.run_id;
  updated_at = w.utc_now;
}

abbrev pub Claimed : Type 0
Claimed = Option ScheduledRun × Bool

-- The end of `claim_run`: a run of the id is returned as it is, otherwise one is made. The marker
-- that the first branch clears in memory stays in the file.
unfoldable pub claim_new :
    Outside
    → String
    → Schedule
    → ScheduleFile
    → Option ScheduledRun
    → Outcome ScheduleError (Claimed × ScheduleFile)
claim_new w schedule_id sch f (some existing) = ok ((some existing, false), f)
claim_new w schedule_id sch f none = do
  let s = load_schedules f
  let r = new_run w schedule_id sch
  g ← save_schedules w (record s {
    schedules = insert schedule_id (claimed w r sch) s.schedules;
    runs = insert r.run_id r s.runs;
  })
  ok ((some r, true), g)

unfoldable pub claim_unless :
    Outside
    → String
    → Schedule
    → ScheduleFile
    → Option ScheduledRun
    → Outcome ScheduleError (Claimed × ScheduleFile)
claim_unless w schedule_id sch f (some previous) = ok ((some previous, false), f)
claim_unless w schedule_id sch f none =
    claim_new w schedule_id sch f
      (lookup (run_id_of w schedule_id (run_key w sch)) (load_schedules f).runs)

-- `claim_run` behind its test of `enabled`
unfoldable pub claim_if :
    Outside
    → String
    → Schedule
    → ScheduleFile
    → Bool
    → Outcome ScheduleError (Claimed × ScheduleFile)
claim_if w schedule_id sch f false = ok ((none, false), f)
claim_if w schedule_id sch f true =
    claim_unless w schedule_id sch f (recent_run w (load_schedules f) sch)

unfoldable pub claim_found :
    Outside
    → String
    → String
    → ScheduleFile
    → Option Schedule
    → Outcome ScheduleError (Claimed × ScheduleFile)
claim_found w schedule_id token f none = ok ((none, false), f)
claim_found w schedule_id token f (some sch) =
    if str_eq sch.callback_token "" || not (str_eq sch.callback_token token)
    then err invalid_token
    else claim_if w schedule_id sch f sch.enabled

unfoldable pub claim_run :
    Outside → String → String → ScheduleFile → Outcome ScheduleError (Claimed × ScheduleFile)
claim_run w schedule_id token f =
    claim_found w schedule_id token f (lookup schedule_id (load_schedules f).schedules)

-- The schedule's copy of what became of its run. The object under the key of the run changes, and
-- stands under its own id too.
unfoldable pub reported : Outside → ScheduledRun → Schedule → Schedule
reported w r sch =
    let seen = record sch {
      last_status = some r.status;
      last_error = r.error_summary;
      last_run_at = some r.scheduled_for;
      updated_at = w.utc_now;
    } in
    if str_eq sch.frequency "once" && (str_eq r.status "succeeded" || str_eq r.status "failed")
    then record seen {
      enabled = false;
      state = if str_eq r.status "succeeded" then "completed" else "failed";
    }
    else seen

unfoldable pub report : Outside → ScheduledRun → Option Schedule → Dict Schedule → Dict Schedule
report w r none d = d
report w r (some sch) d =
    insert sch.schedule_id (reported w r sch) (insert r.schedule_id (reported w r sch) d)

unfoldable pub update_run_found :
    Outside
    → (ScheduledRun → ScheduledRun)
    → String
    → ScheduleFile
    → Option ScheduledRun
    → Outcome ScheduleError (Option ScheduledRun × ScheduleFile)
update_run_found w updates run_id f none = ok (none, f)
update_run_found w updates run_id f (some old) = do
  let s = load_schedules f
  let r = updates old
  g ← save_schedules w (record s {
    schedules = report w r (lookup r.schedule_id s.schedules) s.schedules;
    runs = insert run_id r s.runs;
  })
  ok (some r, g)

unfoldable pub update_run :
    Outside
    → (ScheduledRun → ScheduledRun)
    → String
    → ScheduleFile
    → Outcome ScheduleError (Option ScheduledRun × ScheduleFile)
update_run w updates run_id f =
    update_run_found w updates run_id f (lookup run_id (load_schedules f).runs)

unfoldable pub resumable_run_ids : ℕ → ScheduleFile → List String
resumable_run_ids max_attempts f =
    map (λ e. e.0)
      (filter
        (λ e.
          (str_eq e.1.status "pending" || str_eq e.1.status "running")
          && ltb e.1.attempt_count max_attempts)
        (load_schedules f).runs)

-- Nothing is written where no run belongs to the session.
unfoldable pub delete_run_for_session :
    Outside → String → ScheduleFile → Outcome ScheduleError ScheduleFile
delete_run_for_session w session_id f =
    let s = load_schedules f in
    let kept = filter (λ e. not (str_eq e.1.session_id session_id)) s.runs in
    if length kept == length s.runs then ok f else save_schedules w (record s { runs = kept })
