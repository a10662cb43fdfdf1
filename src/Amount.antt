-- ===== src/Amount.antt =====
-- Atomic amounts: `validate_atomic_amount` of obolus/src/x402.rs, with `u128::from_str` and
-- `u128::to_string` of the standard library, which carry an amount over the wire.
pub mod RoundTrip
mod Tests
use Prim.Native.Char.{Char, code}
use Prim.Native.String
use mathlib.Core.Logic.{dite}
use mathlib.Core.WellFounded.{Acc}
use native.Mathlib.Decide.{dec_lt}
use obolus.Prelude.Order.{lt_wf}
use obolus.Prelude.{
  ℕ, zero, suc, ◌+◌, ◌-◌, ◌*◌, ◌/◌, ◌%◌, ◌^◌, ◌<◌, String, Bool, true, false, Option, none, some,
  ltb, leb, ◌==◌, is_ascii_digit, if◌then◌else◌, arith,
}

abbrev pub u128_max : ℕ
u128_max = 2 ^ 128 - 1

-- One digit at a time; past `u128::MAX` the parse is an overflow error.
unfoldable pub parse_digits : String → ℕ → Option ℕ
parse_digits String.[] n = some n
parse_digits (String.◌∷◌ c s) n =
    let rest = parse_digits s (n * 10 + (code c - 48)) in
    if is_ascii_digit (code c)
    then (if leb (n * 10 + (code c - 48)) u128_max then rest else none)
    else none

-- `"…".parse::<u128>()`: no empty text, one leading `+` allowed before at least one digit.
unfoldable pub parse_u128 : String → Option ℕ
unfolding parse_digits
parse_u128 String.[] = none
parse_u128 (String.◌∷◌ c String.[]) = parse_digits (String.◌∷◌ c "") 0
parse_u128 (String.◌∷◌ c (String.◌∷◌ d s)) =
    if code c == 43
    then parse_digits (String.◌∷◌ d s) 0
    else parse_digits (String.◌∷◌ c (String.◌∷◌ d s)) 0

pub data AmountCheck : Type 0 where
  -- The text itself: the wire form is kept, not reformatted.
  payable : String → AmountCheck
  unpayable : String → AmountCheck

-- `validate_atomic_amount`.
unfoldable pub validate_atomic_amount : String → AmountCheck
unfolding parse_u128
validate_atomic_amount raw = elim (parse_u128 raw) [ none ↦ unpayable raw | some _ ↦ payable raw ]

-- The character of a decimal digit.
unfoldable pub digit : ℕ → Char
digit zero = "0"
digit (suc zero) = "1"
digit (suc (suc zero)) = "2"
digit (suc (suc (suc zero))) = "3"
digit (suc (suc (suc (suc zero)))) = "4"
digit (suc (suc (suc (suc (suc zero))))) = "5"
digit (suc (suc (suc (suc (suc (suc zero)))))) = "6"
digit (suc (suc (suc (suc (suc (suc (suc zero))))))) = "7"
digit (suc (suc (suc (suc (suc (suc (suc (suc zero)))))))) = "8"
digit _ = "9"

pub tenth_lt : {n : ℕ} → 0 < n → n / 10 < n
tenth_lt h = omega arith

prepend_digits : (amount : ℕ) → Acc ◌<◌ amount → (tail : String) → String
prepend_digits amount (Acc.intro _ below) tail =
    dite (dec_lt 0 amount)
      (λ positive.
        prepend_digits (amount / 10) (below (amount / 10) (tenth_lt positive))
          (String.◌∷◌ (digit (amount % 10)) tail))
      (λ _. tail)

-- `to_string` of a `u128`: decimal, with no leading zero but for 0 itself.
unfoldable pub to_decimal : ℕ → String
unfolding prepend_digits digit lt_wf dec_lt
to_decimal zero = "0"
to_decimal (suc n) = prepend_digits (suc n) (lt_wf.apply (suc n)) ""
