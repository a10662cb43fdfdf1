-- ===== src/Prelude/Text.antt =====
-- Texts: equality, and the parts of `str` and `String` that the program walks by character.
use Prim.Native.Nat.{ℕ, ◌+◌}
use Prim.Native.Char.{code}
use Prim.Native.String.{String}
use mathlib.Core.Bool.{Bool, true, false, ◌&&◌, ◌||◌}
use mathlib.Core.List.{List, [], ◌∷◌}
use text.Mathlib.Text.{◌==◌ as text_eq}
use obolus.Prelude.Tests.{leb, ◌==◌, if◌then◌else◌}
use obolus.Prelude.Lists.{any}

-- `==` on two texts.
abbrev pub str_eq : String → String → Bool
str_eq a b = text_eq a b

abbrev pub codes : String → List ℕ
codes String.[] = []
codes (String.◌∷◌ c s) = code c ∷ codes s

abbrev pub is_empty : String → Bool
is_empty String.[] = true
is_empty (String.◌∷◌ c s) = false

-- `contains` of a list of texts.
abbrev pub contains : String → List String → Bool
contains a xs = any (λ x. str_eq x a) xs

-- `char::is_whitespace`: the Unicode property White_Space.
unfoldable pub is_whitespace : ℕ → Bool
is_whitespace c =
    (leb 9 c && leb c 13)
    || (c == 32)
    || (c == 0x85)
    || (c == 0xA0)
    || (c == 0x1680)
    || (leb 0x2000 c && leb c 0x200A)
    || (c == 0x2028)
    || (c == 0x2029)
    || (c == 0x202F)
    || (c == 0x205F)
    || (c == 0x3000)

unfoldable pub trim_start : String → String
unfolding is_whitespace
trim_start String.[] = ""
trim_start (String.◌∷◌ c s) = if is_whitespace (code c) then trim_start s else String.◌∷◌ c s

unfoldable pub trim_end : String → String
unfolding is_whitespace
trim_end String.[] = ""
trim_end (String.◌∷◌ c s) =
    let rest = trim_end s in
    if is_empty rest && is_whitespace (code c) then "" else String.◌∷◌ c rest

-- `str::trim`.
unfoldable pub trim : String → String
unfolding trim_start trim_end
trim s = trim_end (trim_start s)

abbrev pub is_ascii_lower : ℕ → Bool
is_ascii_lower c = leb 97 c && leb c 122

abbrev pub is_ascii_upper : ℕ → Bool
is_ascii_upper c = leb 65 c && leb c 90

abbrev pub is_ascii_digit : ℕ → Bool
is_ascii_digit c = leb 48 c && leb c 57

-- `char::to_ascii_lowercase` on a code point.
abbrev pub lower : ℕ → ℕ
lower c = if is_ascii_upper c then c + 32 else c

-- `char::eq_ignore_ascii_case`.
abbrev pub eq_ignore_ascii_case : ℕ → ℕ → Bool
eq_ignore_ascii_case a b = lower a == lower b

-- `str::eq_ignore_ascii_case`.
unfoldable pub same_letters : List ℕ → List ℕ → Bool
same_letters [] [] = true
same_letters (a ∷ s) (b ∷ t) = eq_ignore_ascii_case a b && same_letters s t
same_letters _ _ = false

-- `str::len`: the bytes of a text in UTF-8.
abbrev pub char_bytes : ℕ → ℕ
char_bytes c = if leb c 0x7F then 1 else if leb c 0x7FF then 2 else if leb c 0xFFFF then 3 else 4

unfoldable pub byte_len : String → ℕ
byte_len String.[] = 0
byte_len (String.◌∷◌ c s) = char_bytes (code c) + byte_len s
