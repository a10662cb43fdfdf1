-- ===== src/Pricing/Markup.antt =====
-- What the other base rates quote.
use obolus.Prelude.{ℕ, suc, ◌+◌, ◌*◌, ◌/◌, ◌≤◌, ◌<◌, ◌≡◌, refl, some, arith}
use obolus.Amount.{u128_max, to_decimal}
use obolus.Amount.RoundTrip.{parse_u128-to_decimal}
use obolus.Pricing.{
  PriceContext, bps_per_whole, saturating_add, saturating_mul, static_price, cost_plus,
}

-- A configured amount in decimal is quoted as that amount.
pub static_price-to_decimal :
    (ctx : PriceContext) (k : ℕ)
    → k ≤ u128_max
    → ctx.requirement.amount ≡ to_decimal k
    → static_price ctx ≡ k
unfolding static_price
static_price-to_decimal ctx k fits amount = rw (amount, parse_u128-to_decimal k fits) refl

abbrev marked_up : ℕ → ℕ → ℕ
marked_up margin_bps cost = saturating_add cost (saturating_mul cost margin_bps / bps_per_whole)

marked_up-exact :
    (margin_bps cost : ℕ)
    → cost * margin_bps ≤ u128_max
    → cost + cost * margin_bps / bps_per_whole ≤ u128_max
    → marked_up margin_bps cost ≡ cost + cost * margin_bps / bps_per_whole
marked_up-exact margin_bps cost h k = ground arith

-- Without an overflow, cost-plus quotes the declared cost and its margin: never more than the exact
-- sum, and less than one atomic unit below it.
pub cost_plus-floors :
    (margin_bps cost : ℕ) (ctx : PriceContext)
    → ctx.backend.cost ≡ some cost
    → cost * margin_bps ≤ u128_max
    → cost + cost * margin_bps / bps_per_whole ≤ u128_max
    → (cost_plus margin_bps ctx * bps_per_whole ≤ cost * bps_per_whole + cost * margin_bps)
      × (cost * bps_per_whole + cost * margin_bps < suc (cost_plus margin_bps ctx) * bps_per_whole)
unfolding cost_plus
cost_plus-floors margin_bps cost ctx declared product sum =
    rw (declared, marked_up-exact margin_bps cost product sum) (omega arith, omega arith)

-- Cost-plus quotes a `u128` and never less than the declared cost, whatever overflows.
pub cost_plus-covers_cost :
    (margin_bps cost : ℕ) (ctx : PriceContext)
    → ctx.backend.cost ≡ some cost
    → cost ≤ u128_max
    → (cost ≤ cost_plus margin_bps ctx) × (cost_plus margin_bps ctx ≤ u128_max)
unfolding cost_plus
cost_plus-covers_cost margin_bps cost ctx declared fits = rw declared (ground arith, ground arith)
