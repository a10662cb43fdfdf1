-- ===== src/Amount/Tests.antt =====
-- Concrete amounts.
use obolus.Prelude.{◌≡◌, refl}
use obolus.Amount.{validate_atomic_amount, payable, unpayable}

-- A leading `+` is accepted, and kept in the text.
plus_sign : validate_atomic_amount "+5" ≡ payable "+5"
unfolding validate_atomic_amount
plus_sign = refl

too_large :
    validate_atomic_amount "340282366920938463463374607431768211456"
    ≡ unpayable "340282366920938463463374607431768211456"
unfolding validate_atomic_amount
too_large = refl
