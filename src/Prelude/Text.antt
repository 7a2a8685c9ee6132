-- ===== src/Prelude/Text.antt =====
-- Python's `str`: code points, `len`, `strip`, and tests on every character.
use Prim.Native.Nat.{ℕ}
use Prim.Native.Char.{Char, code}
use Prim.Native.String.{String}
use mathlib.Core.Path.{◌≡◌, refl}
use mathlib.Core.Bool.{Bool, true, false, ◌&&◌, ◌||◌}
use native.Mathlib.Omega.{arith}
use mathlib.Core.List.{List, [], ◌∷◌, ◌++◌, reverse}
use xpd_report_agent.Prelude.Tests.{ltb, leb, ◌==◌, if◌then◌else◌}
use xpd_report_agent.Prelude.Lists.{length}

abbrev pub chars : String → List Char
chars String.[] = []
chars (String.◌∷◌ c s) = c ∷ chars s

abbrev pub of_chars : List Char → String
of_chars [] = String.[]
of_chars (c ∷ s) = String.◌∷◌ c (of_chars s)

-- `len(s)`
abbrev pub len : String → ℕ
len s = length (chars s)

-- `str.isspace` of one character, by its code point
abbrev pub is_space : ℕ → Bool
is_space c =
    (leb 9 c && leb c 13)
    || (leb 28 c && leb c 32)
    || c == 0x85
    || c == 0xa0
    || c == 0x1680
    || (leb 0x2000 c && leb c 0x200a)
    || c == 0x2028
    || c == 0x2029
    || c == 0x202f
    || c == 0x205f
    || c == 0x3000

abbrev pub drop_spaces : List Char → List Char
drop_spaces [] = []
drop_spaces (c ∷ s) = let rest = drop_spaces s in if is_space (code c) then rest else c ∷ s

-- `s.strip()`
unfoldable pub strip : String → String
strip s = of_chars (reverse (drop_spaces (reverse (drop_spaces (chars s)))))

-- `a + b`
abbrev pub append : String → String → String
append a b = of_chars (chars a ++ chars b)

pub chars-of_chars : (s : List Char) → chars (of_chars s) ≡ s
chars-of_chars [] = refl
chars-of_chars (c ∷ s) = rw (chars-of_chars s)

pub of_chars-chars : (s : String) → of_chars (chars s) ≡ s
of_chars-chars String.[] = refl
of_chars-chars (String.◌∷◌ c s) = rw (of_chars-chars s)

pub chars-append : (a b : String) → chars (append a b) ≡ chars a ++ chars b
chars-append a b = chars-of_chars (chars a ++ chars b)

strip_both : strip "  a b " ≡ "a b"
unfolding strip
strip_both = refl

-- `s <= t` on texts: by code points, the first difference deciding
abbrev pub codes_le : List Char → List Char → Bool
codes_le [] t = true
codes_le (c ∷ s) [] = false
codes_le (c ∷ s) (d ∷ t) = ltb (code c) (code d) || (code c == code d && codes_le s t)

abbrev pub text_le : String → String → Bool
text_le s t = codes_le (chars s) (chars t)

codes_le-total : (s t : List Char) → codes_le s t ≡ false → codes_le t s ≡ true
codes_le-total [] t h = absurd (ground arith)
codes_le-total (c ∷ s) [] h = refl
codes_le-total (c ∷ s) (d ∷ t) h = ground (arith, codes_le-total s t)

pub text_le-total : (s t : String) → text_le s t ≡ false → text_le t s ≡ true
text_le-total s t h = codes_le-total (chars s) (chars t) h
