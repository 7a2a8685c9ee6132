-- ===== src/RunEvents/Tests.antt =====
-- Tests of RunEvents on a small buffer.
use Prim.Native.Char.{Char}
use xpd_report_agent.Prelude.{
  ◌==◌, if◌then◌else◌, ◌+◌, String, ◌≡◌, refl, Option, none, some, List, [], ◌∷◌, arith,
}
use xpd_report_agent.Prelude.Json.{Fields}
use xpd_report_agent.Prelude.Text.{chars, strip}
use xpd_report_agent.Prelude.Dict.{lookup, insert}
use xpd_report_agent.Prelude.Result.{ok, err}
use xpd_report_agent.RunEvents.Buffer.{
  Buffer, with_run, find_key, trimmed, publish_unless, publish, events_after, max_sse_event_id,
}
use xpd_report_agent.RunEvents.Order.{IsBounded, Published, publish_all, publish_all-IsBounded}
use xpd_report_agent.RunEvents.Frames.{
  boundary, split_from, split_complete_sse_events, parse_last_event_id, invalid_last_event_id,
  outside_range,
}
use xpd_report_agent.Prelude.Json.{Json, get}
use xpd_report_agent.RunEvents.Frames.{joined}
use xpd_report_agent.RunEvents.Relay.{
  forwarded, artifact_ready, Artifacts, lines_from, partition_colon, parse_lines, parse_sse_event,
  is_export_tool_completed, ready_from, new_artifact_ready_events, scan_artifacts, relay_frame,
  relay_frames, relay_end, relay_from, relay,
}
use xpd_report_agent.RunEvents.Forward.{forwarded_text, relay-forwarded_text}

program : Unit {0}
unfolding lookup insert with_run find_key trimmed publish_unless publish events_after publish_all
    boundary split_from split_complete_sse_events parse_last_event_id strip get lines_from
    partition_colon parse_lines parse_sse_event is_export_tool_completed ready_from
    new_artifact_ready_events scan_artifacts relay_frame relay_frames relay_end relay_from relay
program = tt

abbrev empty : Buffer
empty = record { runs = []; next_event_id = 7 }

abbrev call : String → Option String → Published
call event key = record { run_id = "run_1"; event = event; payload = Fields.end; dedupe_key = key }

abbrev calls : List Published
calls =
    call "progress" (some "start") ∷ call "answer.delta" none ∷ call "progress" (some "start") ∷ []

-- The repeated key makes no new event.
two_events : events_after "run_1" 7 (publish_all calls empty) ≡ (8, "answer.delta", Fields.end) ∷ []
unfolding program
two_events = refl

used_up :
    (publish "run_1" "progress" Fields.end none
      (record { runs = []; next_event_id = max_sse_event_id + 1 })).1.next_event_id
    ≡ max_sse_event_id + 1
unfolding program
used_up = refl

frames :
    split_complete_sse_events (chars "a\r\n\r\nb\n\nc")
    ≡ (chars "a\r\n\r\n" ∷ chars "b\n\n" ∷ [], chars "c")
unfolding program
frames = refl

last_id : parse_last_event_id (some " 0042 ") ≡ ok 42
unfolding program
last_id = refl

bad_id : parse_last_event_id (some "4.2") ≡ err invalid_last_event_id
unfolding program
bad_id = refl

big_id : parse_last_event_id (some "9007199254740992") ≡ err outside_range
unfolding program
big_id = refl

publish_all-IsBounded_example : IsBounded (publish_all calls empty)
publish_all-IsBounded_example =
    publish_all-IsBounded calls empty (record { few = omega arith; kept = tt })

-- One artifact was there before, one appears with the export, one at the end.
abbrev artifacts : Artifacts
artifacts = record {
  existing = "art_0" ∷ [];
  listing = λ k. some (if k == 0 then "art_0" ∷ "art_1" ∷ [] else "art_1" ∷ "art_2" ∷ []);
  loads =
      λ s. some (Json.obj (Fields.field "tool_name" (Json.str "export_report_file") Fields.end));
}

abbrev chunks : List (List Char)
chunks = chars "event: tool.comp" ∷ [] ∷ chars "leted\ndata: {}\n\n: end" ∷ []

relayed :
    relay artifacts [] chunks
    ≡ forwarded (chars "event: tool.completed\ndata: {}\n\n")
      ∷ artifact_ready "art_1"
      ∷ forwarded (chars ": end")
      ∷ artifact_ready "art_2"
      ∷ []
unfolding program
relayed = refl

relay-forwarded_text_example : forwarded_text (relay artifacts [] chunks) ≡ joined chunks
relay-forwarded_text_example = relay-forwarded_text artifacts [] chunks
