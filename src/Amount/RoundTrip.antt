-- ===== src/Amount/RoundTrip.antt =====
-- What an amount that the gateway prints reads back as.
use Prim.Native.Char.{code}
use mathlib.Core.Logic.{dif_pos, dif_neg, ◌⊎◌}
use mathlib.Core.WellFounded.{Acc}
use native.Mathlib.Decide.{dec_lt}
use native.Mathlib.Bridge.{le_prop}
use obolus.Prelude.Order.{lt_wf}
use obolus.Prelude.{
  ℕ, zero, suc, ◌+◌, ◌/◌, ◌%◌, ◌<◌, ◌≤◌, String, ◌≡◌, ◌≢◌, refl, ◌∙◌, ap, some, arith, inl, inr,
}
use obolus.Amount.{u128_max, parse_digits, parse_u128, digit, prepend_digits, to_decimal, tenth_lt}

code-digit : (d : ℕ) → d < 10 → code (digit d) ≡ 48 + d
unfolding digit
code-digit zero h = refl
code-digit (suc zero) h = refl
code-digit (suc (suc zero)) h = refl
code-digit (suc (suc (suc zero))) h = refl
code-digit (suc (suc (suc (suc zero)))) h = refl
code-digit (suc (suc (suc (suc (suc zero))))) h = refl
code-digit (suc (suc (suc (suc (suc (suc zero)))))) h = refl
code-digit (suc (suc (suc (suc (suc (suc (suc zero))))))) h = refl
code-digit (suc (suc (suc (suc (suc (suc (suc (suc zero)))))))) h = refl
code-digit (suc (suc (suc (suc (suc (suc (suc (suc (suc zero))))))))) h = refl
code-digit (suc (suc (suc (suc (suc (suc (suc (suc (suc (suc d)))))))))) h = absurd (omega arith)

-- One more digit in front of the rest.
parse_digits-digit :
    (n : ℕ) (out : String)
    → n ≤ u128_max
    → parse_digits (String.◌∷◌ (digit (n % 10)) out) (n / 10) ≡ parse_digits out n
unfolding parse_digits
parse_digits-digit n out h = ground (arith, code-digit (n % 10))

parse_digits-prepend_digits :
    (n : ℕ) (w : Acc ◌<◌ n) (out : String)
    → n ≤ u128_max
    → parse_digits (prepend_digits n w out) 0 ≡ parse_digits out n
unfolding prepend_digits
parse_digits-prepend_digits n (Acc.intro _ smaller) out h = elim (dec_lt 0 n) [
  | yes p ↦ rw (dif_pos (dec_lt 0 n) le_prop p) (
      parse_digits-prepend_digits (n / 10) (smaller (n / 10) (tenth_lt p))
        (String.◌∷◌ (digit (n % 10)) out) (omega arith)
      ∙ parse_digits-digit n out h)
  | no p ↦ rw (dif_neg (dec_lt 0 n) p) (ap (parse_digits out) (omega arith))
]

-- A text that `parse_u128` reads as digits: not empty, and no `+` in front.
abbrev IsPlain : String → Type 0
IsPlain String.[] = ⊥
IsPlain (String.◌∷◌ c s) = code c ≢ 43

digit-ne-plus : (d : ℕ) → d < 10 → code (digit d) ≢ 43
digit-ne-plus d h = omega (arith, code-digit d h)

IsPlain-prepend_digits :
    (n : ℕ) (w : Acc ◌<◌ n) (out : String)
    → (0 < n) ⊎ IsPlain out
    → IsPlain (prepend_digits n w out)
unfolding prepend_digits
IsPlain-prepend_digits n (Acc.intro _ smaller) out h = elim (dec_lt 0 n) [
  | yes p ↦ rw (dif_pos (dec_lt 0 n) le_prop p) (
      IsPlain-prepend_digits (n / 10) (smaller (n / 10) (tenth_lt p))
        (String.◌∷◌ (digit (n % 10)) out) (inr (digit-ne-plus (n % 10) (omega arith))))
  | no p ↦ rw (dif_neg (dec_lt 0 n) p) (ground arith)
]

parse_u128-IsPlain : (s : String) → IsPlain s → parse_u128 s ≡ parse_digits s 0
unfolding parse_u128
parse_u128-IsPlain String.[] h = elim h [ ]
parse_u128-IsPlain (String.◌∷◌ c String.[]) h = refl
parse_u128-IsPlain (String.◌∷◌ c (String.◌∷◌ d s)) h = ground arith

-- Every amount of a `u128` that is printed reads back as the same number.
pub parse_u128-to_decimal : (n : ℕ) → n ≤ u128_max → parse_u128 (to_decimal n) ≡ some n
unfolding to_decimal
parse_u128-to_decimal zero h = unfold parse_u128 in refl
parse_u128-to_decimal (suc n) h =
    parse_u128-IsPlain _
      (IsPlain-prepend_digits (suc n) (lt_wf.apply (suc n)) "" (inl (omega arith)))
    ∙ parse_digits-prepend_digits (suc n) (lt_wf.apply (suc n)) "" h
    ∙ unfold parse_digits in refl
