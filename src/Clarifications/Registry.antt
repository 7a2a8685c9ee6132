-- ===== src/Clarifications/Registry.antt =====
-- `ClarificationRegistry` of src/xpd_report_agent/runtime/hermes_clarify.py. The dictionary holds the
-- items that callers share; an item changes only while the registry holds it or as it leaves. `ready` is the state
-- of its event. Times are whole ticks of the clock.
use mathlib.Core.Option
use xpd_report_agent.Prelude.Text.{strip, chars, of_chars}
use xpd_report_agent.Prelude.Json.{pos}
use xpd_report_agent.Prelude.Dict.{Dict, lookup, insert, remove}
use xpd_report_agent.Prelude.Env.{Setting, unset, malformed, number, clamp}
use xpd_report_agent.Prelude.{
  take, ℕ, suc, ◌+◌, String, Bool, true, false, not, ◌&&◌, ◌||◌, Option, none, some, List, [], ◌∷◌,
  ◌++◌, map, ltb, leb, str_eq, if◌then◌else◌, length, filter,
}

abbrev pub default_timeout_seconds : ℕ
default_timeout_seconds = 300

abbrev pub max_timeout_seconds : ℕ
max_timeout_seconds = 3600

unfoldable pub clarify_timeout_seconds : Setting → ℕ
clarify_timeout_seconds unset = clamp 1 max_timeout_seconds (pos 300)
clarify_timeout_seconds malformed = clamp 1 max_timeout_seconds (pos default_timeout_seconds)
clarify_timeout_seconds (number n) = clamp 1 max_timeout_seconds n

pub data Status : Type 0 where
  pending answered expired : Status

abbrev pub is_pending : Status → Bool
is_pending pending = true
is_pending _ = false

abbrev pub is_answered : Status → Bool
is_answered answered = true
is_answered _ = false

pub record PendingClarification : Type 0 where
  pub clarification_id : String
  pub session_id : String
  pub owner_scope : String
  pub question : String
  pub choices : List String
  pub timeout_seconds : ℕ
  pub expires_at : ℕ
  pub status : Status
  pub answer : Option String
  pub ready : Bool

abbrev pub Registry : Type 0
Registry = Dict PendingClarification

-- The arguments of `create`, with the hex digits that `uuid4` gives and the reading of the clock.
pub record Question : Type 0 where
  pub session_id : String
  pub owner_scope : String
  pub question : String
  pub choices : Option (List String)
  pub timeout_seconds : ℕ
  pub hex : String
  pub now : ℕ

-- `[str(choice).strip() for choice in (choices or []) if str(choice).strip()][:4]`
unfoldable pub offered_choices : Option (List String) → List String
offered_choices none = []
offered_choices (some choices) = take 4 (filter (λ s. not (str_eq s "")) (map strip choices))

-- `f"clarify_{uuid.uuid4().hex}"`
unfoldable pub clarification_id_of : String → String
clarification_id_of hex = of_chars (chars "clarify_" ++ chars hex)

unfoldable pub created : Question → PendingClarification
created q = record {
  clarification_id = clarification_id_of q.hex;
  session_id = q.session_id;
  owner_scope = q.owner_scope;
  question = strip q.question;
  choices = offered_choices q.choices;
  timeout_seconds = q.timeout_seconds;
  expires_at = q.now + q.timeout_seconds;
  status = pending;
  answer = none;
  ready = false;
}

unfoldable pub create : Question → Registry → Registry × PendingClarification
create q d = (insert (created q).clarification_id (created q) d, created q)

-- `item.status = "expired"; item.ready.set()`
abbrev pub lapse : PendingClarification → PendingClarification
lapse item = record item { status = expired; ready = true }

-- `discard`: the registry after it, and the item that left it, for the worker that still waits on it:
-- expired and with its event set
unfoldable pub discard : String → Registry → Registry × Option PendingClarification
discard clarification_id d =
    (remove clarification_id d, Option.map lapse (lookup clarification_id d))

abbrev pub is_owned : PendingClarification → String → String → Bool
is_owned item session_id owner_scope =
    str_eq item.session_id session_id && str_eq item.owner_scope owner_scope

-- `item.status = "expired"; item.answer = None; item.ready.set()`
abbrev pub expire : PendingClarification → PendingClarification
expire item = record item { status = expired; answer = none; ready = true }

-- The loop of `expire_session`: the registry after it, and how many questions it woke
unfoldable pub expire_session : String → String → Registry → Registry × ℕ
expire_session session_id owner_scope [] = ([], 0)
expire_session session_id owner_scope ((k, item) ∷ d) =
    let rest = expire_session session_id owner_scope d in
    if is_pending item.status && is_owned item session_id owner_scope
    then ((k, expire item) ∷ rest.0, suc rest.1)
    else ((k, item) ∷ rest.0, rest.1)

-- `item.ready.wait(remaining)` comes back
abbrev pub is_over : ℕ → PendingClarification → Bool
is_over now item = item.ready || leb item.expires_at now

-- What `wait` returns.
abbrev pub Waited : Type 0
Waited = Status × Option String

unfoldable pub outcome : PendingClarification → Waited
outcome item = if is_answered item.status then (item.status, item.answer) else (expired, none)

unfoldable pub wait_found : String → Registry → Option PendingClarification → Registry × Waited
wait_found clarification_id d none = (d, (expired, none))
wait_found clarification_id d (some current) = (remove clarification_id d, outcome current)

-- `wait` behind the event: the locked part
unfoldable pub wait : String → Registry → Registry × Waited
wait clarification_id d = wait_found clarification_id d (lookup clarification_id d)

-- What `answer` returns.
pub data Reply : Type 0 where
  reply_answered reply_expired reply_not_found reply_conflict : Reply

pub record Answer : Type 0 where
  pub clarification_id : String
  pub session_id : String
  pub owner_scope : String
  pub text : String
  pub now : ℕ

-- `item.answer = answer; item.status = "answered"; item.ready.set()`
abbrev pub accept : String → PendingClarification → PendingClarification
accept text item = record item { answer = some text; status = answered; ready = true }

unfoldable pub answer_found : Answer → Registry → Option PendingClarification → Registry × Reply
answer_found a d none = (d, reply_not_found)
answer_found a d (some item) =
    if not (is_owned item a.session_id a.owner_scope)
    then (d, reply_not_found)
    else if not (is_pending item.status)
    then (d, reply_conflict)
    else if leb item.expires_at a.now
    then (insert a.clarification_id (lapse item) d, reply_expired)
    else (insert a.clarification_id (accept a.text item) d, reply_answered)

unfoldable pub answer_question : Answer → Registry → Registry × Reply
answer_question a d = answer_found a d (lookup a.clarification_id d)

abbrev pub is_open : ℕ → PendingClarification → Bool
is_open now item = is_pending item.status && ltb now item.expires_at

unfoldable pub pending_count : ℕ → Registry → ℕ
pending_count now d = length (filter (λ e. is_open now e.1) d)
