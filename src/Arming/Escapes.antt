-- ===== src/Arming/Escapes.antt =====
-- How operator text is shown, for `legible` and `escape_controls` of obolus/src/arming.rs, with the
-- standard library's `char::escape_default` and `char::is_control` written out. A text is the list of
-- its code points here.
use obolus.Prelude.{
  ℕ, ◌+◌, ◌/◌, ◌%◌, Bool, ◌||◌, ◌&&◌, List, [], ◌∷◌, ◌++◌, map, leb, ltb, ◌==◌, if◌then◌else◌,
}

abbrev pub Chars : Type 0
Chars = List ℕ

-- A lower-case hexadecimal digit.
abbrev pub hex_code : ℕ → ℕ
hex_code n = if ltb n 10 then 48 + n else 87 + n

-- The digits without the zeros before them; the last one stays.
unfoldable pub drop_zeros : Chars → (last : ℕ) → Chars
drop_zeros [] last = hex_code last ∷ []
drop_zeros (n ∷ ns) last =
    let rest = drop_zeros ns last in
    if n == 0 then rest else map hex_code (n ∷ ns) ++ (hex_code last ∷ [])

-- A code point is below 16 ^ 6.
unfoldable pub hex_digits : ℕ → Chars
hex_digits c =
    drop_zeros
      ((c / 1048576) % 16
        ∷ (c / 65536) % 16
        ∷ (c / 4096) % 16
        ∷ (c / 256) % 16
        ∷ (c / 16) % 16
        ∷ [])
      (c % 16)

-- `char::escape_default`.
unfoldable pub escape_default : ℕ → Chars
escape_default c =
    if c == 9
    then 92 ∷ 116 ∷ []
    else if c == 13
    then 92 ∷ 114 ∷ []
    else if c == 10
    then 92 ∷ 110 ∷ []
    else if (c == 39) || (c == 34) || (c == 92)
    then 92 ∷ c ∷ []
    else if leb 32 c && leb c 126
    then c ∷ []
    else 92 ∷ 117 ∷ 123 ∷ (hex_digits c ++ (125 ∷ []))

abbrev pub is_control : ℕ → Bool
is_control c = ltb c 32 || (leb 127 c && leb c 159)

abbrev pub is_bidi : ℕ → Bool
is_bidi c =
    (c == 0x061C)
    || (c == 0x200E)
    || (c == 0x200F)
    || (leb 0x202A c && leb c 0x202E)
    || (leb 0x2066 c && leb c 0x2069)

-- What can start a line or rewrite one.
abbrev pub is_unsafe : ℕ → Bool
is_unsafe c = is_control c || (c == 0x2028) || (c == 0x2029) || is_bidi c

abbrev pub escape_unsafe : ℕ → Chars
escape_unsafe c = if is_unsafe c then escape_default c else c ∷ []

-- `map` and `collect`, for a test by character.
abbrev pub each_char : (ℕ → Chars) → Chars → Chars
each_char f [] = []
each_char f (c ∷ text) = f c ++ each_char f text

unfoldable pub escape_controls : Chars → Chars
escape_controls text = each_char escape_unsafe text

unfoldable pub legible : Chars → Chars
legible value = 34 ∷ (each_char escape_default value ++ (34 ∷ []))
