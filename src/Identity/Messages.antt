-- ===== src/Identity/Messages.antt =====
-- Session records and messages of src/xpd_report_agent/api/session_service.py, with the fields that
-- it reads.
use xpd_report_agent.Prelude.{
  ◌/◌, map, ℕ, suc, ◌+◌, ◌≤◌, String, Bool, true, false, not, ◌&&◌, ◌||◌, Option, none, some, List,
  [], ◌∷◌, arith, ltb, str_eq, if◌then◌else◌, length, filter,
}
use xpd_report_agent.Prelude.Text.{strip}
use xpd_report_agent.Prelude.Json.{Json}

-- `content`: a text, a list of so many parts, or something else
pub data Content : Type 0 where
  text : String → Content
  parts : ℕ → Content
  no_content : Content

abbrev pub has_content : Content → Bool
has_content (text s) = not (str_eq (strip s) "")
has_content (parts n) = ltb 0 n
has_content no_content = false

-- `reasoning` is the text of `reasoning_content` or else of `reasoning`, if it is one.
pub record Message : Type 0 where
  pub role : String
  pub content : Content
  pub has_tool_calls : Bool
  pub reasoning : Option String
  pub tool_name : Json
  pub timestamp : Json
  pub finish_reason : Json

abbrev pub is_user : Message → Bool
is_user m = str_eq m.role "user"

abbrev pub is_assistant : Message → Bool
is_assistant m = str_eq m.role "assistant"

-- An assistant's message that ends a turn.
abbrev pub is_final : Message → Bool
is_final m = is_assistant m && has_content m.content && not m.has_tool_calls

-- The loop of `count_completed_turns`, with `waiting_for_final`
unfoldable pub completed_turns : Bool → List Message → ℕ
completed_turns waiting [] = 0
completed_turns waiting (m ∷ ms) =
    let asked = completed_turns true ms in
    let answered = completed_turns false ms in
    let same = completed_turns waiting ms in
    if is_user m then asked else if waiting && is_final m then suc answered else same

unfoldable pub count_completed_turns : List Message → ℕ
count_completed_turns = completed_turns false

pub record Session : Type 0 where
  pub id : String
  pub session_id : String
  pub title : String
  pub started_at : Option String
  pub last_active : Option String
  pub ended_at : Option String
  pub message_count : ℕ
  pub end_reason : Json
  pub parent_session_id : Json
  pub preview : String

pub record NormalSession : Type 0 where
  pub session_id : String
  pub title : String
  pub status : String
  pub completed_turn_count : ℕ
  pub message_count : ℕ
  pub created_at : Option String
  pub last_active_at : Option String
  pub closed_at : Option String
  pub end_reason : Json
  pub parent_session_id : Json
  pub preview : String

abbrev or_else : String → String → String
or_else a b = if str_eq a "" then b else a

abbrev or_started : Option String → Option String → Option String
or_started none started = started
or_started (some t) started = if str_eq t "" then started else some t

abbrev is_ended : Option String → Bool
is_ended none = false
is_ended (some t) = not (str_eq t "")

unfoldable pub normalize_session : Session → Option ℕ → NormalSession
normalize_session s completed = record {
  session_id = or_else s.id s.session_id;
  title = or_else s.title "新对话";
  status = if is_ended s.ended_at then "closed" else "active";
  completed_turn_count = elim completed [ some n ↦ n | none ↦ s.message_count / 2 ];
  message_count = s.message_count;
  created_at = s.started_at;
  last_active_at = or_started s.last_active s.started_at;
  closed_at = s.ended_at;
  end_reason = s.end_reason;
  parent_session_id = s.parent_session_id;
  preview = s.preview;
}

abbrev pub is_client_role : Message → Bool
is_client_role m = is_user m || is_assistant m || str_eq m.role "tool"

abbrev safe_reasoning : Option String → Option String
safe_reasoning none = none
safe_reasoning (some r) = if str_eq (strip r) "" then none else some r

abbrev safe_content : (String → String) → Content → Content
safe_content strip_block (text s) = text (strip_block s)
safe_content strip_block c = c

-- `strip_structured_analysis_block` is an argument.
unfoldable pub safe_message : (String → String) → Message → Message
safe_message strip_block m = record m {
  content = if is_assistant m then safe_content strip_block m.content else m.content;
  reasoning = if is_assistant m then safe_reasoning m.reasoning else none;
  has_tool_calls = false;
}

unfoldable pub client_safe_messages : (String → String) → List Message → List Message
client_safe_messages strip_block ms = map (safe_message strip_block) (filter is_client_role ms)

-- A completed turn needs a question and an answer of its own.
pub completed_turns-le :
    (waiting : Bool) (ms : List Message)
    → (completed_turns waiting ms ≤ length (filter is_user ms) + (if waiting then 1 else 0))
      × (completed_turns waiting ms ≤ length (filter is_final ms))
unfolding completed_turns
completed_turns-le waiting [] = (omega arith, omega arith)
completed_turns-le waiting (m ∷ ms) =
    let (a, b) = completed_turns-le true ms in
    let (c, d) = completed_turns-le false ms in
    let (e, f) = completed_turns-le waiting ms in (ground arith, ground arith)
