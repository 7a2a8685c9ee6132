-- ===== src/Prelude/Patterns.antt =====
-- Character classes and the regular expressions that the program matches in full.
use Prim.Native.Char.{Char, code}
use xpd_report_agent.Prelude.Tests.{leb, ◌==◌, if◌then◌else◌}
use xpd_report_agent.Prelude.Lists.{length, take, drop, all}
use xpd_report_agent.Prelude.Text.{chars, of_chars}
use Prim.Native.Nat.{ℕ}
use Prim.Native.String.{String}
use mathlib.Core.Bool.{Bool, true, false, ◌&&◌, ◌||◌}
use mathlib.Core.List.{List, [], ◌∷◌}
use mathlib.Core.Option.{Option, none, some}

abbrev pub is_digit : Char → Bool
is_digit c = leb b'0' (code c) && leb (code c) b'9'

-- `[0-9a-f]`
abbrev pub is_hex : Char → Bool
is_hex c = is_digit c || (leb b'a' (code c) && leb (code c) b'f')

-- `[A-Za-z0-9_]`
abbrev pub is_word : Char → Bool
is_word c =
    is_digit c
    || (leb b'a' (code c) && leb (code c) b'z')
    || (leb b'A' (code c) && leb (code c) b'Z')
    || code c == b'_'

-- The rest behind a literal prefix.
abbrev pub behind : List Char → List Char → Option (List Char)
behind [] s = some s
behind (p ∷ ps) [] = none
behind (p ∷ ps) (c ∷ s) = let rest = behind ps s in if code p == code c then rest else none

-- `xs[:n]` matches `[0-9a-f]{n}`
abbrev pub is_hex_block : ℕ → List Char → Bool
is_hex_block n s = length (take n s) == n && all is_hex (take n s)

-- A text of the class, with at least one character.
abbrev pub is_words : List Char → Bool
is_words [] = false
is_words (c ∷ s) = is_word c && all is_word s

-- `_[A-Za-z0-9_]+`
abbrev pub is_tail : List Char → Bool
is_tail [] = false
is_tail (c ∷ s) = code c == b'_' && is_words s

-- `xpd_([0-9a-f]{20})_[A-Za-z0-9_]+` in full: group 1
unfoldable pub owner_scope_from_session_id : String → Option String
owner_scope_from_session_id s = elim (behind (chars "xpd_") (chars s)) [
  | none ↦ none
  | some t ↦ if is_hex_block 20 t && is_tail (drop 20 t) then some (of_chars (take 20 t)) else none
]

-- `[0-9a-f]{20}` in full
unfoldable pub is_owner_scope : String → Bool
is_owner_scope s = length (chars s) == 20 && all is_hex (chars s)

-- `result_[0-9a-f]{32}` in full
unfoldable pub is_result_id : String → Bool
is_result_id s = elim (behind (chars "result_") (chars s)) [
  | none ↦ false
  | some t ↦ length t == 32 && all is_hex t
]

abbrev starts : List Char → List Char → Bool
starts p s = elim (behind p s) [ none ↦ false | some t ↦ true ]

abbrev has : List Char → List Char → Bool
has p [] = starts p []
has p (c ∷ s) = starts p (c ∷ s) || has p s

-- `needle in text`
unfoldable pub contains : String → String → Bool
contains needle text = has (chars needle) (chars text)
