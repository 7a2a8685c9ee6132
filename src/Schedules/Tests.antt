-- ===== src/Schedules/Tests.antt =====
-- A small run of the store of src/xpd_report_agent/api/schedule_store.py.
use xpd_report_agent.Prelude.{◌≡◌, refl, true, false, none, some, [], ◌∷◌}
use xpd_report_agent.Prelude.Json.{Json}
use xpd_report_agent.Prelude.Dict.{lookup, insert, remove}
use xpd_report_agent.Prelude.Result.{err}
use xpd_report_agent.Schedules.Store.{
  invalid_token, Schedule, ScheduledRun, ScheduleFile, stored, Outside, load_schedules,
  save_schedules, create,
}
use xpd_report_agent.Schedules.Claim.{
  delete_run_for_session, period_key, recent_run, run_key, run_id_of, new_run, claimed, claim_new,
  claim_unless, claim_if, claim_found, claim_run,
}
use xpd_report_agent.Schedules.Sessions.{first_run, metadata_of, metadata_for_session}
use xpd_report_agent.Schedules.Once.{IsNewClaim, IsIdle, claim_run_new, claim_run_once}

program : Unit {0}
unfolding first_run metadata_of metadata_for_session delete_run_for_session lookup insert remove
    load_schedules save_schedules create period_key recent_run run_key run_id_of new_run claimed
    claim_new claim_unless claim_if claim_found claim_run
program = tt

abbrev schedule : Schedule
schedule = record {
  schedule_id = "sched_1";
  owner_scope = "o";
  report_type = "live";
  format = "docx";
  frequency = "daily";
  enabled = true;
  state = "active";
  callback_token = "secret";
  pending_manual_run_id = none;
  last_callback_at = none;
  last_callback_run_id = none;
  last_run_at = none;
  last_status = none;
  last_error = Json.null;
  created_at = "t0";
  updated_at = "t0";
}

abbrev morning : Outside
morning = record {
  utc_now = "t1";
  token = "abc";
  date = "2026-01-05";
  monday = "2026-01-05";
  minute = "2026-01-05T09:00";
  age = λ t. none;
  digest = λ s. s;
  disk = true;
}

abbrev evening : Outside
evening = record morning { utc_now = "t2"; minute = "2026-01-05T21:00"; token = "def" }

abbrev one_schedule : ScheduleFile
one_schedule = stored (record { schedules = ("sched_1", schedule) ∷ []; runs = []; taken = [] })

abbrev started : ScheduledRun
started = new_run morning "sched_1" schedule

abbrev one_run : ScheduleFile
one_run = stored (record {
  schedules = ("sched_1", claimed morning started schedule) ∷ [];
  runs = (started.run_id, started) ∷ [];
  taken = [];
})

refused : claim_run morning "sched_1" "guess" one_schedule ≡ err invalid_token
unfolding program
refused = refl

claim_run_new_example :
    (sch : Schedule) × (lookup "sched_1" (load_schedules one_schedule).schedules ≡ some sch)
    × IsNewClaim morning "sched_1" "secret" one_schedule started one_run sch
unfolding program
claim_run_new_example = claim_run_new morning "sched_1" "secret" one_schedule refl

claim_run_once_example : IsIdle one_run ((some started, false), one_run)
unfolding program
claim_run_once_example =
    claim_run_once morning evening "sched_1" "secret" "secret" one_schedule schedule refl refl refl
      refl refl refl
