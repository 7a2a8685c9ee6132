-- ===== src/RunEvents/Relay.antt =====
-- The relay of an upstream stream with the artifacts that a run makes, of
-- src/xpd_report_agent/api/sessions.py: `_parse_sse_event`, `_is_export_tool_completed`,
-- `_new_artifact_ready_events` and `_relay_hermes_sse_with_artifacts`.
use xpd_report_agent.Prelude.{
  any, ℕ, ◌+◌, String, Bool, true, false, not, ◌&&◌, ◌||◌, Option, none, some, List, [], ◌∷◌, ◌++◌,
  map, leb, ◌==◌, str_eq, if◌then◌else◌, length, filter,
}
use Prim.Native.Char.{Char, code}
use xpd_report_agent.Prelude.Json.{Json, get}
use xpd_report_agent.Prelude.Text.{of_chars, append}
use xpd_report_agent.RunEvents.Frames.{split_complete_sse_events}

-- The characters at which `str.splitlines` ends a line
abbrev ends_line : ℕ → Bool
ends_line n =
    (leb 10 n && leb n 13) || (leb 28 n && leb n 30) || n == 0x85 || n == 0x2028 || n == 0x2029

-- `text.splitlines()`: `line` is the current line, so far; a line feed behind a carriage return
-- belongs to it.
unfoldable pub lines_from : Bool → List Char → List Char → List (List Char)
lines_from after_return line [] = if length line == 0 then [] else line ∷ []
lines_from after_return line (c ∷ s) =
    let skipped = lines_from false line s in
    let ended = line ∷ lines_from (code c == 13) [] s in
    let more = lines_from false (line ++ c ∷ []) s in
    if after_return && code c == 10 then skipped else if ends_line (code c) then ended else more

-- `line.partition(":")`: what stands before the colon and behind it, if there is one
unfoldable pub partition_colon : List Char → List Char × Option (List Char)
partition_colon [] = ([], none)
partition_colon (c ∷ s) =
    let (field, value) = partition_colon s in
    if code c == b':' then ([], some s) else (c ∷ field, value)

-- The value without one space at its start
abbrev value_of : Option (List Char) → List Char
value_of none = []
value_of (some []) = []
value_of (some (c ∷ s)) = if code c == 32 then s else c ∷ s

abbrev or_message : String → String
or_message s = if str_eq s "" then "message" else s

-- The event's name and its data lines
abbrev Parsed : Type 0
Parsed = String × List String

abbrev with_line : Parsed → List Char → Parsed
with_line (name, lines) line =
    let (field, rest) = partition_colon line in
    let value = of_chars (value_of rest) in
    if str_eq (of_chars field) "event"
    then (or_message value, lines)
    else if str_eq (of_chars field) "data"
    then (name, lines ++ value ∷ [])
    else (name, lines)

abbrev is_comment : List Char → Bool
is_comment [] = true
is_comment (c ∷ s) = code c == b':'

unfoldable pub parse_lines : Parsed → List (List Char) → Parsed
parse_lines p [] = p
parse_lines p (line ∷ lines) =
    let same = parse_lines p lines in
    let next = parse_lines (with_line p line) lines in if is_comment line then same else next

abbrev joined_by_breaks : List String → String
joined_by_breaks [] = ""
joined_by_breaks (s ∷ []) = s
joined_by_breaks (s ∷ t ∷ ss) = append s (append "\n" (joined_by_breaks (t ∷ ss)))

unfoldable pub parse_sse_event : List Char → String × String
parse_sse_event frame =
    let (name, lines) = parse_lines ("message", []) (lines_from false [] frame) in
    (name, joined_by_breaks lines)

abbrev is_export : Option Json → Bool
is_export (some (Json.obj fs)) = elim (get "tool_name" fs) [
  | some (Json.str name) ↦ str_eq name "export_report_file"
  | _ ↦ false
]
is_export _ = false

-- `loads` is `json.loads`, which may raise.
unfoldable pub is_export_tool_completed : (String → Option Json) → List Char → Bool
is_export_tool_completed loads frame =
    let (name, raw) = parse_sse_event frame in
    (str_eq name "tool.completed" || str_eq name "hermes.tool.completed")
    && not (str_eq raw "")
    && is_export (loads raw)

abbrev among : List String → String → Bool
among ids id = any (str_eq id) ids

-- The new artifacts among those listed, by their ids, and all that were emitted
unfoldable pub ready_from : List String → List String → List String → List String × List String
ready_from existing emitted [] = ([], emitted)
ready_from existing emitted (id ∷ ids) =
    let same = ready_from existing emitted ids in
    let (rest, all_emitted) = ready_from existing (id ∷ emitted) ids in
    if str_eq id "" || among existing id || among emitted id then same else (id ∷ rest, all_emitted)

-- A listing that fails gives no event.
unfoldable pub new_artifact_ready_events :
    List String → List String → Option (List String) → List String × List String
new_artifact_ready_events existing emitted none = ([], emitted)
new_artifact_ready_events existing emitted (some ids) = ready_from existing emitted ids

-- What the relay yields: a part of the upstream text, or the event of an artifact
pub data Piece : Type 0 where
  forwarded : List Char → Piece
  artifact_ready : String → Piece

-- The session's artifacts as the k-th listing finds them, and those that were there before
pub record Artifacts : Type 0 where
  pub existing : List String
  pub listing : ℕ → Option (List String)
  pub loads : String → Option Json

-- The ids that were emitted, and how many listings were made
pub record Progress : Type 0 where
  pub emitted : List String
  pub listings : ℕ

unfoldable pub scan_artifacts : Artifacts → Progress → List Piece × Progress
scan_artifacts a p =
    let (ids, emitted) = new_artifact_ready_events a.existing p.emitted (a.listing p.listings) in
    (map artifact_ready ids, record { emitted = emitted; listings = p.listings + 1 })

-- One frame, with the artifacts behind it if it reports an export
unfoldable pub relay_frame : Artifacts → Progress → List Char → List Piece × Progress
relay_frame a p frame =
    let (found, after) = scan_artifacts a p in
    if is_export_tool_completed a.loads frame
    then (forwarded frame ∷ found, after)
    else (forwarded frame ∷ [], p)

unfoldable pub relay_frames : Artifacts → Progress → List (List Char) → List Piece × Progress
relay_frames a p [] = ([], p)
relay_frames a p (frame ∷ frames) =
    let (pieces, next) = relay_frame a p frame in
    let (rest, after) = relay_frames a next frames in (pieces ++ rest, after)

-- The end of the stream: what is left in the buffer, and a last listing
unfoldable pub relay_end : Artifacts → Progress → List Char → List Piece
relay_end a p [] = (scan_artifacts a p).0
relay_end a p (c ∷ s) =
    let (pieces, next) = relay_frame a p (c ∷ s) in pieces ++ (scan_artifacts a next).0

unfoldable pub relay_from : Artifacts → Progress → List Char → List (List Char) → List Piece
relay_from a p buffer [] = relay_end a p buffer
relay_from a p buffer (chunk ∷ chunks) =
    let (frames, rest) = split_complete_sse_events (buffer ++ chunk) in
    let (pieces, next) = relay_frames a p frames in pieces ++ relay_from a next rest chunks

-- `_relay_hermes_sse_with_artifacts`; a chunk that is empty changes nothing.
unfoldable pub relay : Artifacts → List String → List (List Char) → List Piece
relay a emitted chunks =
    relay_from a (record { emitted = emitted; listings = 0 }) []
      (filter (λ chunk. not (length chunk == 0)) chunks)
