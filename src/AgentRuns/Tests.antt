-- ===== src/AgentRuns/Tests.antt =====
-- Concrete runs of the store of src/xpd_report_agent/api/agent_runs.py.
use xpd_report_agent.Prelude.{
  filter, String, ◌≡◌, ◌≢◌, refl, true, false, none, some, List, [], ◌∷◌, arith, eq_iff,
}
use mathlib.Core.List.{Perm}
use xpd_report_agent.Prelude.Json.{Json, Items, Fields, null, pos}
use xpd_report_agent.Prelude.Text.{strip}
use xpd_report_agent.Prelude.Dict.{lookup, insert}
use xpd_report_agent.Prelude.Sort.{sort, place}
use xpd_report_agent.AgentRuns.Run.{
  succeeded, store_error, Run, run, ok, err, pending, waiting_input, failed, Clarification,
  empty_checkpoint, owned, run_retry_attempt_count, idempotency_conflict,
}
use xpd_report_agent.AgentRuns.Validate.{
  Codec, validate_idempotency_key, validate_identity, serializable, json_clone, request_digest,
  answer_digest, stable_run_id,
}
use xpd_report_agent.AgentRuns.File.{File, missing, unreadable, stored, Env, load, save}
use xpd_report_agent.AgentRuns.Updates.{
  succeeded_update, running_update, failed_update, retry_update, waiting_update, resume_update,
  resumed, started,
}
use xpd_report_agent.AgentRuns.Store.{
  mark_succeeded, owned_run, Request, Checked, new_run, check_request, create_found, create_or_get,
  update_found, update_owned, mark_running, retry, claim_found, claim_pending, resume_found,
  resume_with_input, replay_input, resumable, resumable_runs, created_le, list_resumable,
}
use xpd_report_agent.AgentRuns.Moves.{Moved}
use xpd_report_agent.AgentRuns.Operations.{
  Op, create, change, start, claim, succeed, perform, perform_change, perform_all,
}
use xpd_report_agent.AgentRuns.Effects.{Effect}
use xpd_report_agent.AgentRuns.History.Lookup.{run_at}
use xpd_report_agent.AgentRuns.History.Legal.{
  IsNew, Keeps, perform_legal, perform_isolated, perform_all-Keeps,
}
use xpd_report_agent.AgentRuns.History.Consistent.{IsConsistent, perform_all-IsConsistent}
use xpd_report_agent.AgentRuns.Calls.Create.{create_or_get-create_or_get, create_or_get_conflict}
use xpd_report_agent.AgentRuns.Calls.Claim.{Claimed, claim_pending-Claimed, claim_pending_once}
use xpd_report_agent.AgentRuns.Calls.Retry.{Retried, retry-Retried}
use xpd_report_agent.AgentRuns.Calls.Replay.{resume_with_input_again, resume_with_input_conflict}
use xpd_report_agent.AgentRuns.Calls.Corrupt.{perform_corrupt}
use xpd_report_agent.AgentRuns.Calls.Listing.{is_listed, InOrder, list_resumable_lem}

program : Unit {0}
unfolding validate_idempotency_key validate_identity serializable json_clone request_digest
    answer_digest stable_run_id load save owned_run check_request create_found create_or_get
    update_found update_owned mark_running retry claim_found claim_pending resume_found
    resume_with_input replay_input running_update failed_update retry_update waiting_update
    resume_update owned run_retry_attempt_count perform perform_change perform_all run_at lookup
    insert strip succeeded_update mark_succeeded sort place resumable resumable_runs created_le
    list_resumable
program = tt

abbrev first_name : Json → String
first_name (Json.obj (Fields.field k v fs)) = k
first_name _ = "[]"

abbrev codec : Codec
codec = record { sha256_hex = λ s. s; dumps = first_name }

abbrev env : Env
env = record { clock = λ i. "noon"; writable = true }

abbrev ask_sales : Request
ask_sales = record {
  owner_scope = "alice";
  session_id = "s1";
  idempotency_key = "k1";
  request = Json.obj (Fields.field "sales" null Fields.end);
  request_id = none;
  checkpoint = none;
}

abbrev ask_refunds : Request
ask_refunds = record ask_sales { request = Json.obj (Fields.field "refunds" null Fields.end) }

abbrev checked : Checked
checked = record {
  run_id = "run_[]";
  request_id = "k1";
  idempotency_key = "k1";
  owner_scope = "alice";
  session_id = "s1";
  request_hash = "sales";
  request = Json.obj (Fields.field "sales" null Fields.end);
  checkpoint = some empty_checkpoint;
}

abbrev fresh : Run
fresh = new_run env checked

abbrev one_run : File
one_run = stored (("run_[]", run fresh) ∷ [])

created : create_or_get codec env ask_sales missing ≡ ok ((fresh, true), one_run)
unfolding program
created = refl

perform_legal_example :
    Effect Moved IsNew "alice" missing (perform codec env (create ask_sales) missing)
perform_legal_example = perform_legal codec env (create ask_sales) missing

fresh_at : run_at one_run "run_[]" ≡ some fresh
unfolding program
fresh_at = refl

perform_isolated_example :
    run_at (perform codec env (change start "run_[]" "bob") one_run) "run_[]" ≡ some fresh
unfolding owned
perform_isolated_example =
    perform_isolated codec env (change start "run_[]" "bob") one_run "run_[]" fresh fresh_at refl

abbrev script : List (Env × Op)
script =
    (env, change claim "run_[]" "alice")
    ∷ (env, change (succeed null) "run_[]" "alice")
    ∷ (env, change start "run_[]" "alice")
    ∷ []

perform_all-Keeps_example :
    (r : Run) × (run_at (perform_all codec script one_run) "run_[]" ≡ some r) × Keeps fresh r
perform_all-Keeps_example = perform_all-Keeps codec script one_run "run_[]" fresh fresh_at

fresh-IsConsistent : IsConsistent fresh
fresh-IsConsistent = ground arith

no_runs : (id : String) (r : Run) → run_at missing id ≡ some r → IsConsistent r
unfolding program
no_runs id r h = cc

abbrev done : Run
done = record (started env fresh) { status = succeeded; completed_at = some "noon" }

done_at : run_at (perform_all codec ((env, create ask_sales) ∷ script) missing) "run_[]" ≡ some done
unfolding program
done_at = refl

perform_all-IsConsistent_example : IsConsistent done
perform_all-IsConsistent_example =
    perform_all-IsConsistent codec ((env, create ask_sales) ∷ script) missing no_runs "run_[]" done
      done_at

create_or_get-create_or_get_example :
    create_or_get codec env ask_sales one_run ≡ ok ((fresh, false), one_run)
create_or_get-create_or_get_example =
    create_or_get-create_or_get codec env env ask_sales missing created

refunds_checked :
    check_request codec ask_refunds
    ≡ ok (record checked {
      request_hash = "refunds";
      request = Json.obj (Fields.field "refunds" null Fields.end);
    })
unfolding program
refunds_checked = refl

create_or_get_conflict_example :
    create_or_get codec env ask_refunds one_run ≡ err idempotency_conflict
create_or_get_conflict_example =
    create_or_get_conflict codec env env ask_sales ask_refunds missing created refl refl refl
      refunds_checked (ground (arith, eq_iff "refunds" "sales"))

abbrev busy : Run
busy = started env fresh

abbrev busy_file : File
busy_file = stored (("run_[]", run busy) ∷ [])

claimed : claim_pending env "run_[]" "alice" one_run ≡ ok ((some busy, true), busy_file)
unfolding program
claimed = refl

claim_pending-Claimed_example : Claimed "run_[]" "alice" one_run busy busy_file
claim_pending-Claimed_example = claim_pending-Claimed env "run_[]" "alice" one_run claimed

claim_pending_once_example :
    claim_pending env "run_[]" "alice" busy_file ≢ ok ((some busy, true), busy_file)
claim_pending_once_example = claim_pending_once env env "run_[]" "alice" "alice" one_run claimed

abbrev broken : Run
broken = record busy { status = failed; error = Json.str "timeout"; completed_at = some "noon" }

abbrev broken_file : File
broken_file = stored (("run_[]", run broken) ∷ [])

abbrev requeued : Run
requeued = record broken { status = pending; error = null; completed_at = none }

abbrev requeued_file : File
requeued_file = stored (("run_[]", run requeued) ∷ [])

retried : retry env 3 "run_[]" "alice" broken_file ≡ ok (some requeued, requeued_file)
unfolding program
retried = refl

retry-Retried_example : Retried 3 "run_[]" "alice" broken_file requeued requeued_file
retry-Retried_example = retry-Retried env 3 "run_[]" "alice" broken_file retried

abbrev question : Clarification
question = record {
  clarification_id = "q1";
  question = "Which shop?";
  choices = "north" ∷ "south" ∷ [];
  requested_at = "noon";
}

abbrev waiting : Run
waiting = record busy { status = waiting_input; clarification = some question }

abbrev waiting_file : File
waiting_file = stored (("run_[]", run waiting) ∷ [])

abbrev answered : Run
answered = record (resumed env "k2" "north" "north" 4 (Json.arr Items.nil) question waiting) {
  updated_at = "noon";
}

abbrev answered_file : File
answered_file = stored (("run_[]", run answered) ∷ [])

north : answer_digest codec " north " ≡ ok ("north", "north")
unfolding program
north = refl

south : answer_digest codec "south" ≡ ok ("south", "south")
unfolding program
south = refl

accepted :
    resume_with_input codec env "k2" " north "
      (pos 4)
      (Json.arr Items.nil)
      "run_[]"
      "alice"
      waiting_file
    ≡ ok ((some answered, true), answered_file)
unfolding program
accepted = refl

resume_with_input_again_example :
    (resume_with_input codec env "k2" " north "
        (pos 9)
        (Json.arr Items.nil)
        "run_[]"
        "alice"
        answered_file
      ≡ ok ((some answered, false), answered_file))
    × (replay_input codec "k2" " north " "run_[]" "alice" answered_file ≡ ok (some answered))
resume_with_input_again_example =
    resume_with_input_again codec env "k2" " north " (pos 4) (Json.arr Items.nil) "run_[]" "alice"
      waiting_file north accepted env (pos 9)

resume_with_input_conflict_example :
    (resume_with_input codec env "k2" "south"
        (pos 4)
        (Json.arr Items.nil)
        "run_[]"
        "alice"
        answered_file
      ≡ err idempotency_conflict)
    × (replay_input codec "k2" "south" "run_[]" "alice" answered_file ≡ err idempotency_conflict)
resume_with_input_conflict_example =
    resume_with_input_conflict codec env "k2" " north " (pos 4) (Json.arr Items.nil) "run_[]"
      "alice" waiting_file north accepted env (pos 4) "south" south
      (ground (arith, eq_iff "south" "north"))

unread : load unreadable ≡ err store_error
unfolding program
unread = refl

perform_corrupt_example :
    (perform codec env (create ask_sales) unreadable ≡ unreadable)
    × (create_or_get codec env ask_sales unreadable ≢ ok ((fresh, true), one_run))
    × (list_resumable none none unreadable ≢ ok [])
perform_corrupt_example =
    perform_corrupt codec env unreadable refl (create ask_sales) ask_sales ((fresh, true), one_run)
      none none []

busy_loaded : load busy_file ≡ ok (("run_[]", run busy) ∷ [])
unfolding program
busy_loaded = refl

listed : list_resumable (some 1) (some "alice") busy_file ≡ ok (busy ∷ [])
unfolding program
listed = refl

list_resumable_example :
    Perm (busy ∷ []) (filter (is_listed (some 1) (some "alice")) (busy ∷ [])) × InOrder (busy ∷ [])
list_resumable_example = list_resumable_lem (some 1) (some "alice") busy_file busy_loaded listed
