-- ===== src/RunEvents/Frames.antt =====
-- Server-sent events as src/xpd_report_agent/api/sessions.py reads and numbers them.
use xpd_report_agent.Prelude.{
  ◌*◌, all, ℕ, zero, suc, ◌+◌, ◌-◌, String, ◌≡◌, sym, ap, ◌∙◌, Bool, not, ◌&&◌, ◌||◌, Option, none,
  some, List, [], ◌∷◌, ◌++◌, ltb, ◌==◌, str_eq, if◌then◌else◌,
}
use Prim.Native.Char.{Char, code}
use mathlib.Core.List.{append_assoc, append-nil}
use xpd_report_agent.Prelude.Text.{chars, len, strip}
use xpd_report_agent.Prelude.Patterns.{is_digit}
use xpd_report_agent.Prelude.Result.{Outcome, ok, err}
use xpd_report_agent.RunEvents.Buffer.{max_sse_event_id}

-- `\r\n\r\n|\n\n|\r\r` at the start: how many characters it takes
abbrev is_cr : Char → Bool
is_cr c = code c == 13

abbrev is_lf : Char → Bool
is_lf c = code c == 10

unfoldable pub boundary : List Char → Option ℕ
boundary (a ∷ b ∷ c ∷ d ∷ s) =
    if is_cr a && is_lf b && is_cr c && is_lf d
    then some 4
    else if (is_lf a && is_lf b) || (is_cr a && is_cr b)
    then some 2
    else none
boundary (a ∷ b ∷ s) = if (is_lf a && is_lf b) || (is_cr a && is_cr b) then some 2 else none
boundary _ = none

-- What a boundary still takes behind its first character
abbrev one_less : Option ℕ → Option ℕ
one_less none = none
one_less (some n) = some (n - 1)

-- `_split_complete_sse_events`: the frames, each with its boundary, and the rest. `frame` holds what
-- the current frame has so far, `left` how many characters its boundary still takes.
unfoldable pub split_from : List Char → Option ℕ → List Char → List (List Char) × List Char
split_from frame left [] = ([], frame)
split_from frame (some (suc zero)) (c ∷ s) =
    let (frames, rest) = split_from [] none s in ((frame ++ c ∷ []) ∷ frames, rest)
split_from frame (some n) (c ∷ s) = split_from (frame ++ c ∷ []) (some (n - 1)) s
split_from frame none (c ∷ s) = split_from (frame ++ c ∷ []) (one_less (boundary (c ∷ s))) s

unfoldable pub split_complete_sse_events : List Char → List (List Char) × List Char
split_complete_sse_events buffer = split_from [] none buffer

-- The 400 of a bad `Last-Event-ID`
pub data LastEventError : Type 0 where
  invalid_last_event_id outside_range : LastEventError

abbrev digits_value : ℕ → List Char → ℕ
digits_value acc [] = acc
digits_value acc (c ∷ s) = digits_value (acc * 10 + (code c - b'0')) s

unfoldable pub parse_last_event_id : Option String → Outcome LastEventError ℕ
parse_last_event_id none = ok 0
parse_last_event_id (some value) =
    let normalized = strip value in
    let parsed = digits_value 0 (chars normalized) in
    if str_eq normalized ""
    then ok 0
    else if ltb 16 (len normalized) || not (all is_digit (chars normalized))
    then err invalid_last_event_id
    else if ltb max_sse_event_id parsed
    then err outside_range
    else ok parsed

abbrev pub joined : List (List Char) → List Char
joined [] = []
joined (f ∷ fs) = f ++ joined fs

-- The frames and the rest are the text, with nothing lost or changed.
split_from-joined :
    (frame : List Char) (left : Option ℕ) (s : List Char)
    → joined (split_from frame left s).0 ++ (split_from frame left s).1 ≡ frame ++ s
unfolding split_from
split_from-joined frame left [] = sym (append-nil frame)
split_from-joined frame (some zero) (c ∷ s) =
    split_from-joined (frame ++ c ∷ []) (some 0) s ∙ append_assoc frame (c ∷ []) s
split_from-joined frame (some (suc zero)) (c ∷ s) =
    append_assoc (frame ++ c ∷ []) (joined (split_from [] none s).0) (split_from [] none s).1
    ∙ ap (λ t. (frame ++ c ∷ []) ++ t) (split_from-joined [] none s)
    ∙ append_assoc frame (c ∷ []) s
split_from-joined frame (some (suc (suc n))) (c ∷ s) =
    split_from-joined (frame ++ c ∷ []) (some (suc (suc n) - 1)) s ∙ append_assoc frame (c ∷ []) s
split_from-joined frame none (c ∷ s) =
    split_from-joined (frame ++ c ∷ []) (one_less (boundary (c ∷ s))) s
    ∙ append_assoc frame (c ∷ []) s

pub split_complete_sse_events-joined :
    (buffer : List Char)
    → joined (split_complete_sse_events buffer).0 ++ (split_complete_sse_events buffer).1 ≡ buffer
unfolding split_complete_sse_events
split_complete_sse_events-joined buffer = split_from-joined [] none buffer
