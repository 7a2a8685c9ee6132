-- ===== src/Schedules/Sessions.antt =====
-- What sessions see of their runs in `ScheduleStore` of src/xpd_report_agent/api/schedule_store.py.
use xpd_report_agent.Prelude.{
  length-filter-le, ℕ, String, ◌≡◌, refl, sym, ap, ◌∙◌, inl, inr, Bool, true, not, Option, none,
  some, [], ◌∷◌, arith, ◌==◌, str_eq, if◌then◌else◌, Bool-cases, length, filter,
}
use xpd_report_agent.Prelude.Dict.{Dict}
use xpd_report_agent.Prelude.Json.{Json}
use xpd_report_agent.Prelude.Result.{Outcome, ok}
use xpd_report_agent.Schedules.Store.{
  ScheduleError, ScheduledRun, Schedules, ScheduleFile, stored, Outside, load_schedules,
  save_schedules,
}
use xpd_report_agent.Schedules.Claim.{delete_run_for_session}

-- The fields of a run that the API shows.
pub record PublicRun : Type 0 where
  pub run_id : String
  pub schedule_id : String
  pub session_id : String
  pub report_type : String
  pub status : String
  pub trigger_type : String
  pub scheduled_for : String
  pub attempt_count : ℕ
  pub error_summary : Json
  pub created_at : String
  pub started_at : Option String
  pub completed_at : Option String

unfoldable public_run : ScheduledRun → PublicRun
public_run r = record {
  run_id = r.run_id;
  schedule_id = r.schedule_id;
  session_id = r.session_id;
  report_type = r.report_type;
  status = r.status;
  trigger_type = r.trigger_type;
  scheduled_for = r.scheduled_for;
  attempt_count = r.attempt_count;
  error_summary = r.error_summary;
  created_at = r.created_at;
  started_at = r.started_at;
  completed_at = r.completed_at;
}

pub record SessionMetadata : Type 0 where
  pub origin : String
  pub read_only : Bool
  pub schedule_id : String
  pub report_kind : String
  pub run_status : String
  pub scheduled_for : String
  pub error_summary : Json

-- `next((item for item in runs if item.get("session_id") == session_id), None)`
unfoldable pub first_run : String → Dict ScheduledRun → Option ScheduledRun
first_run session_id [] = none
first_run session_id (e ∷ d) =
    if str_eq e.1.session_id session_id then some e.1 else first_run session_id d

unfoldable pub metadata_of : Option ScheduledRun → Option SessionMetadata
metadata_of none = none
metadata_of (some r) = some (record {
  origin = "scheduled";
  read_only = true;
  schedule_id = r.schedule_id;
  report_kind = r.report_type;
  run_status = r.status;
  scheduled_for = r.scheduled_for;
  error_summary = r.error_summary;
})

unfoldable pub metadata_for_session : String → ScheduleFile → Option SessionMetadata
metadata_for_session session_id f = metadata_of (first_run session_id (load_schedules f).runs)

abbrev pub kept : String → Dict ScheduledRun → Dict ScheduledRun
kept session_id d = filter (λ e. not (str_eq e.1.session_id session_id)) d

first_run-kept :
    (session_id : String) (d : Dict ScheduledRun) → first_run session_id (kept session_id d) ≡ none
unfolding first_run
first_run-kept session_id [] = refl
first_run-kept session_id (e ∷ d) = ground (arith, first_run-kept session_id d)

first_run-all :
    (session_id : String) (d : Dict ScheduledRun)
    → length (kept session_id d) ≡ length d
    → first_run session_id d ≡ none
unfolding first_run
first_run-all session_id [] h = refl
first_run-all session_id (e ∷ d) h = elim (Bool-cases (str_eq e.1.session_id session_id)) [
  | inl b ↦ absurd (
      let h' = rw b at h in
      omega (arith, length-filter-le (λ e. not (str_eq e.1.session_id session_id)) d))
  | inr b ↦ rw b (first_run-all session_id d (let h' = rw b at h in omega arith))
]

ok_file : {f g : ScheduleFile} → ◌≡◌ {A = Outcome ScheduleError ScheduleFile} (ok f) (ok g) → f ≡ g
ok_file h = cc

load-stored : (s : Schedules) → load_schedules (stored s) ≡ s
unfolding load_schedules
load-stored s = refl

saved_load :
    (w : Outside) (s : Schedules) {g : ScheduleFile}
    → save_schedules w s ≡ ok g
    → load_schedules g ≡ s
unfolding save_schedules
saved_load w s h = elim (Bool-cases w.disk) [
  | inl b ↦ ap load_schedules (sym (ok_file (rw b at h))) ∙ load-stored s
  | inr b ↦ absurd (let h' = rw b at h in ground arith)
]

-- After `delete_run_for_session` has returned, no run of the session is found.
metadata_for_session-delete_run_for_session :
    (w : Outside) (session_id : String) (f : ScheduleFile) {g : ScheduleFile}
    → delete_run_for_session w session_id f ≡ ok g
    → metadata_for_session session_id g ≡ none
unfolding metadata_for_session delete_run_for_session metadata_of
metadata_for_session-delete_run_for_session w session_id f {g} h =
    let runs = (load_schedules f).runs in
    elim (Bool-cases (length (kept session_id runs) == length runs)) [
      | inl b ↦
          let same = ok_file (rw b at h) in
          rw (sym same) (rw (first_run-all session_id runs (ground arith)) refl)
      | inr b ↦ rw (saved_load w _ (rw b at h)) (rw (first_run-kept session_id runs) refl)
    ]
