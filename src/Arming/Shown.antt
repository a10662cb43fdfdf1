-- ===== src/Arming/Shown.antt =====
-- What operator text can do to the lines that quote it, for obolus/src/arming.rs.
use obolus.Prelude.{
  ℕ, ◌%◌, ◌/◌, ◌≤◌, ◌<◌, ◌≡◌, ◌⊎◌, inl, inr, ◌↔◌, subst, refl, ap, Bool, true, false, [], ◌∷◌, ◌++◌,
  map, All, All-weaken, All-append, arith, Bool-cases, ltb, leb, ◌==◌, ◌||◌, ◌&&◌, if◌then◌else◌,
}
use obolus.Arming.Escapes.{
  Chars, hex_code, drop_zeros, hex_digits, escape_default, is_unsafe, escape_unsafe, each_char,
  escape_controls, legible,
}

-- Printable ASCII.
abbrev pub IsPlain : ℕ → Type 0
IsPlain c = (32 ≤ c) × (c ≤ 126)

-- No control, no separator of lines and no mark of direction (U+061C, U+200E, U+200F, U+202A to U+202E
-- and U+2066 to U+2069); U+2028 and U+2029 separate lines.
abbrev pub IsQuietCode : ℕ → Type 0
IsQuietCode c =
    (32 ≤ c)
    × ((c ≤ 126) ⊎ (160 ≤ c))
    × ¬ (c ≡ 0x061C)
    × ((c ≤ 0x200D) ⊎ (0x2010 ≤ c))
    × ((c ≤ 0x2027) ⊎ (0x202F ≤ c))
    × ((c ≤ 0x2065) ⊎ (0x206A ≤ c))

-- Nothing in the text starts a line or rewrites one.
abbrev pub IsQuiet : Chars → Type 0
IsQuiet text = All IsQuietCode text

safe-IsQuietCode : (c : ℕ) → is_unsafe c ≡ false → IsQuietCode c
safe-IsQuietCode c h =
    (ground arith, ground arith, ground arith, ground arith, ground arith, ground arith)

IsQuietCode-safe : (c : ℕ) → IsQuietCode c → is_unsafe c ≡ false
IsQuietCode-safe c h = ground arith

IsPlain-IsQuietCode : (c : ℕ) → IsPlain c → IsQuietCode c
IsPlain-IsQuietCode c h =
    (h.0, inl h.1, omega arith, inl (omega arith), inl (omega arith), inl (omega arith))

All-if :
    (P : ℕ → Type 0) (b : Bool) (xs ys : Chars)
    → (b ≡ true → All P xs)
    → (b ≡ false → All P ys)
    → All P (if b then xs else ys)
All-if P true xs ys then_all else_all = then_all refl
All-if P false xs ys then_all else_all = else_all refl

hex_code-IsPlain : (n : ℕ) → n < 16 → IsPlain (hex_code n)
hex_code-IsPlain n h = elim (Bool-cases (ltb n 10)) [
  | inl low ↦ rw low (ground arith)
  | inr high ↦ rw high (ground arith)
]

map-hex_code-IsPlain : (ns : Chars) → All (λ n. n < 16) ns → All IsPlain (map hex_code ns)
map-hex_code-IsPlain [] h = tt
map-hex_code-IsPlain (n ∷ ns) h = (hex_code-IsPlain n h.0, map-hex_code-IsPlain ns h.1)

drop_zeros-IsPlain :
    (ns : Chars) (last : ℕ) → All (λ n. n < 16) ns → last < 16 → All IsPlain (drop_zeros ns last)
unfolding drop_zeros
drop_zeros-IsPlain [] last h small = (hex_code-IsPlain last small, tt)
drop_zeros-IsPlain (n ∷ ns) last h small = elim (Bool-cases (n == 0)) [
  | inl e ↦ rw e (drop_zeros-IsPlain ns last h.1 small)
  | inr e ↦ rw e (
      All-append IsPlain (map hex_code (n ∷ ns)) (hex_code last ∷ [])
        (map-hex_code-IsPlain (n ∷ ns) h) (hex_code-IsPlain last small, tt))
]

nibble : (n : ℕ) → n % 16 < 16
nibble n = omega arith

hex_digits-IsPlain : (c : ℕ) → All IsPlain (hex_digits c)
unfolding hex_digits
hex_digits-IsPlain c =
    drop_zeros-IsPlain
      ((c / 1048576) % 16
        ∷ (c / 65536) % 16
        ∷ (c / 4096) % 16
        ∷ (c / 256) % 16
        ∷ (c / 16) % 16
        ∷ [])
      (c % 16)
      (
        nibble (c / 1048576),
        (nibble (c / 65536), (nibble (c / 4096), (nibble (c / 256), (nibble (c / 16), tt)))),
      )
      (nibble c)

pair-IsPlain : (x y : ℕ) → IsPlain x → IsPlain y → All IsPlain (x ∷ y ∷ [])
pair-IsPlain x y h g = (h, (g, tt))

braced-IsPlain : (c : ℕ) → All IsPlain (92 ∷ 117 ∷ 123 ∷ (hex_digits c ++ (125 ∷ [])))
braced-IsPlain c = (
  (omega arith, omega arith),
  (
    (omega arith, omega arith),
    (
      (omega arith, omega arith),
      All-append IsPlain (hex_digits c) (125 ∷ []) (hex_digits-IsPlain c)
          ((omega arith, omega arith), tt),
    ),
  ),
)

quoted-IsPlain : (c : ℕ) → ((c == 39) || (c == 34) || (c == 92)) ≡ true → IsPlain c
quoted-IsPlain c e = (ground arith, ground arith)

printable-IsPlain : (c : ℕ) → (leb 32 c && leb c 126) ≡ true → IsPlain c
printable-IsPlain c e = (ground arith, ground arith)

escape_default-IsPlain : (c : ℕ) → All IsPlain (escape_default c)
unfolding escape_default
escape_default-IsPlain c =
    All-if IsPlain (c == 9) _ _
      (λ e. pair-IsPlain 92 116 (omega arith, omega arith) (omega arith, omega arith))
      λ e1.
        All-if IsPlain (c == 13) _ _
          (λ e. pair-IsPlain 92 114 (omega arith, omega arith) (omega arith, omega arith))
          λ e2.
            All-if IsPlain (c == 10) _ _
              (λ e. pair-IsPlain 92 110 (omega arith, omega arith) (omega arith, omega arith))
              λ e3.
                All-if IsPlain ((c == 39) || (c == 34) || (c == 92)) _ _
                  (λ e. pair-IsPlain 92 c (omega arith, omega arith) (quoted-IsPlain c e))
                  λ e4.
                    All-if IsPlain (leb 32 c && leb c 126) _ _ (λ e. (printable-IsPlain c e, tt))
                      λ e5. braced-IsPlain c

escape_unsafe-IsQuiet : (c : ℕ) → IsQuiet (escape_unsafe c)
escape_unsafe-IsQuiet c =
    All-if IsQuietCode (is_unsafe c) _ _
      (λ e.
        All-weaken IsPlain IsQuietCode (escape_default c) IsPlain-IsQuietCode
          (escape_default-IsPlain c))
      (λ e. (safe-IsQuietCode c e, tt))

each_char-All :
    (P : ℕ → Type 0) (f : ℕ → Chars) (text : Chars)
    → ((c : ℕ) → All P (f c))
    → All P (each_char f text)
each_char-All P f [] h = tt
each_char-All P f (c ∷ text) h =
    All-append P (f c) (each_char f text) (h c) (each_char-All P f text h)

each_char-escape_unsafe : (text : Chars) → IsQuiet text → each_char escape_unsafe text ≡ text
each_char-escape_unsafe [] h = refl
each_char-escape_unsafe (c ∷ text) h =
    rw (IsQuietCode-safe c h.0) (ap (λ cs. c ∷ cs) (each_char-escape_unsafe text h.1))

-- Whatever an operator writes, a value that is shown is printable ASCII, and a message that quotes it
-- holds no control, no separator of lines and no mark of direction; a message that holds none to
-- begin with, and no other, is left as it is.
pub legible-IsPlain :
    (text : Chars)
    → All IsPlain (legible text)
      × IsQuiet (escape_controls text)
      × ((escape_controls text ≡ text) ↔ IsQuiet text)
unfolding legible escape_controls
legible-IsPlain text =
    let quiet = each_char-All IsQuietCode escape_unsafe text escape_unsafe-IsQuiet in
    (
      (
        (omega arith, omega arith),
        All-append IsPlain (each_char escape_default text) (34 ∷ [])
            (each_char-All IsPlain escape_default text escape_default-IsPlain)
            ((omega arith, omega arith), tt),
      ),
      quiet,
      ((λ same. subst IsQuiet same quiet), each_char-escape_unsafe text),
    )
