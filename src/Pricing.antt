-- ===== src/Pricing.antt =====
-- What a request costs: the determiners of obolus/src/pricing.rs. A price is a `u128`; a determiner
-- is a function of what it is asked about.
pub mod Token
pub mod Markup
pub mod Promotion
mod Tests
use obolus.Prelude.{
  ℕ, ◌+◌, ◌-◌, ◌*◌, ◌/◌, ◌^◌, min, Bool, true, false, ◌&&◌, Option, none, some, leb, ltb, ◌==◌,
  unwrap_or, and_then, if◌then◌else◌,
}
use obolus.Amount.{u128_max, parse_u128}
use obolus.Payment.{PaymentRequirements}
use obolus.Request.{RequestShape}
use obolus.Request.Pass.{MaxTokens, limit}
use obolus.Backends.{Backend, TokenRate, rate_of}

pub record PriceContext : Type 0 where
  pub request : RequestShape
  pub backend : Backend
  pub requirement : PaymentRequirements

-- `PriceDeterminer::quote`.
abbrev pub PriceDeterminer : Type 0
PriceDeterminer = PriceContext → ℕ

-- The arithmetic of a `u128` that saturates or reports an overflow.
abbrev pub saturating_add : ℕ → ℕ → ℕ
saturating_add a b = min (a + b) u128_max

abbrev pub saturating_mul : ℕ → ℕ → ℕ
saturating_mul a b = min (a * b) u128_max

abbrev pub checked : ℕ → Option ℕ
checked k = if leb k u128_max then some k else none

-- `div_ceil` by a divisor that is not zero.
abbrev pub div_ceil : ℕ → ℕ → ℕ
div_ceil a b = (a + (b - 1)) / b

unfoldable pub static_price : PriceDeterminer
static_price ctx = unwrap_or (parse_u128 ctx.requirement.amount) u128_max

unfoldable pub flat_price : (amount : ℕ) → PriceDeterminer
flat_price amount ctx = amount

abbrev pub bps_per_whole : ℕ
bps_per_whole = 10000

unfoldable pub cost_plus : (margin_bps : ℕ) → PriceDeterminer
cost_plus margin_bps ctx =
    let cost = unwrap_or ctx.backend.cost u128_max in
    saturating_add cost (saturating_mul cost margin_bps / bps_per_whole)

abbrev pub u64_max : ℕ
u64_max = 2 ^ 64 - 1

abbrev pub bytes_per_input_token : ℕ
bytes_per_input_token = 4

abbrev pub tokens_per_rate : ℕ
tokens_per_rate = 1000000

unfoldable pub estimated_input_tokens : (body_len : ℕ) → ℕ
estimated_input_tokens body_len =
    div_ceil (if leb body_len u64_max then body_len else u64_max) bytes_per_input_token

unfoldable pub token_quote : (input_tokens : ℕ) → (max_tokens : ℕ) → TokenRate → Option ℕ
token_quote input_tokens max_tokens rate = and_then (checked (rate.input * input_tokens)) λ input.
    and_then (checked (rate.output * max_tokens))
      λ output. and_then (checked (input + output)) λ total. some (div_ceil total tokens_per_rate)

unfoldable pub model_rate : RequestShape → Backend → Option TokenRate
model_rate request backend = and_then request.model λ model. rate_of model backend.rates

abbrev pub payable_quote : Option ℕ → ℕ
payable_quote (some quote) = if ltb 0 quote then quote else u128_max
payable_quote none = u128_max

abbrev pub price_tokens : Option TokenRate → MaxTokens → (body_len : ℕ) → ℕ
price_tokens (some rate) (limit max_tokens) body_len =
    payable_quote (token_quote (estimated_input_tokens body_len) max_tokens rate)
price_tokens _ _ body_len = u128_max

unfoldable pub token_price : PriceDeterminer
token_price ctx =
    price_tokens (model_rate ctx.request ctx.backend) ctx.request.max_tokens ctx.request.body_len

-- What a promotion makes of a base quote, inside its window.
abbrev pub discounted : (discount_bps : ℕ) → ℕ → ℕ
discounted discount_bps base =
    let marked_down = saturating_mul base (bps_per_whole - discount_bps) / bps_per_whole in
    if ltb 0 base && (marked_down == 0) then 1 else marked_down

-- `Promotional`; `now` is what its clock reads for this quote.
unfoldable pub promotional :
    (discount_bps : ℕ) → (start : ℕ) → (end : ℕ) → PriceDeterminer → (now : ℕ) → PriceDeterminer
promotional discount_bps start end base now ctx =
    if leb start now && ltb now end then discounted discount_bps (base ctx) else base ctx
