-- ===== src/Pricing/Token.antt =====
-- What a token-priced quote is.
use obolus.Prelude.{
  ℕ, ◌+◌, ◌*◌, ◌≤◌, ◌<◌, ◌≡◌, inl, inr, ◌⊎◌, refl, Option, none, some, arith, Option-cases, leb,
  ltb, Bool-cases,
}
use obolus.Amount.{u128_max}
use obolus.Backends.{TokenRate}
use obolus.Request.Pass.{MaxTokens, absent, invalid, limit}
use obolus.Pricing.{
  PriceContext, div_ceil, tokens_per_rate, estimated_input_tokens, token_quote, model_rate,
  payable_quote, price_tokens, token_price,
}

-- The atomic units that the tokens cost, times a million.
abbrev pub cost_of : (input_tokens : ℕ) → (max_tokens : ℕ) → TokenRate → ℕ
cost_of i m rate = rate.input * i + rate.output * m

-- A quote is given exactly where the total fits a `u128`.
token_quote-total :
    (i m : ℕ) (rate : TokenRate)
    → cost_of i m rate ≤ u128_max
    → token_quote i m rate ≡ some (div_ceil (cost_of i m rate) tokens_per_rate)
unfolding token_quote
token_quote-total i m rate h = ground arith

token_quote-overflow :
    (i m : ℕ) (rate : TokenRate) → u128_max < cost_of i m rate → token_quote i m rate ≡ none
unfolding token_quote
token_quote-overflow i m rate h = ground arith

-- The quote is the total per million tokens, rounded up, where the total fits a `u128`; it is absent
-- where the total does not.
pub token_quote-rounds_up :
    (i m : ℕ) (rate : TokenRate)
    → ((u128_max < cost_of i m rate) × (token_quote i m rate ≡ none))
      ⊎ ((q : ℕ) × (token_quote i m rate ≡ some q)
          × (cost_of i m rate ≤ q * tokens_per_rate)
          × (q * tokens_per_rate < cost_of i m rate + tokens_per_rate))
token_quote-rounds_up i m rate = elim (Bool-cases (leb (cost_of i m rate) u128_max)) [
  | inl fits ↦ inr (
    div_ceil (cost_of i m rate) tokens_per_rate,
    token_quote-total i m rate (ground arith),
    omega arith,
    omega arith,
  )
  | inr over ↦ inl (ground arith, token_quote-overflow i m rate (ground arith))
]

token_quote-fits :
    (i m : ℕ) (rate : TokenRate) (q : ℕ) → token_quote i m rate ≡ some q → q ≤ u128_max
token_quote-fits i m rate q h = elim (Bool-cases (leb (cost_of i m rate) u128_max)) [
  | inl fits ↦ ground (arith, token_quote-total i m rate)
  | inr over ↦ absurd (ground (arith, token_quote-overflow i m rate))
]

price_tokens-payable :
    (rate : Option TokenRate) (asked : MaxTokens) (body_len : ℕ)
    → (0 < price_tokens rate asked body_len) × (price_tokens rate asked body_len ≤ u128_max)
price_tokens-payable none asked body_len = (omega arith, omega arith)
price_tokens-payable (some rate) absent body_len = (omega arith, omega arith)
price_tokens-payable (some rate) invalid body_len = (omega arith, omega arith)
price_tokens-payable (some rate) (limit m) body_len =
    elim (Option-cases (token_quote (estimated_input_tokens body_len) m rate)) [
      | inl over ↦ rw over (omega arith, omega arith)
      | inr (q, quoted) ↦ rw quoted (payable q (token_quote-fits _ m rate q quoted))
    ]
  where
    payable :
        (q : ℕ) → q ≤ u128_max → (0 < payable_quote (some q)) × (payable_quote (some q) ≤ u128_max)
    payable q fits = (ground arith, ground arith)

-- A token-priced quote is never zero and always a `u128`.
pub token_price-payable :
    (ctx : PriceContext) → (0 < token_price ctx) × (token_price ctx ≤ u128_max)
unfolding token_price
token_price-payable ctx =
    price_tokens-payable (model_rate ctx.request ctx.backend) ctx.request.max_tokens
      ctx.request.body_len

price_tokens-covers :
    (rate : TokenRate) (m : ℕ) (body_len : ℕ)
    → (price_tokens (some rate) (limit m) body_len ≡ u128_max)
      ⊎ ((cost_of (estimated_input_tokens body_len) m rate
            ≤ price_tokens (some rate) (limit m) body_len * tokens_per_rate)
          × (price_tokens (some rate) (limit m) body_len * tokens_per_rate
              < cost_of (estimated_input_tokens body_len) m rate + tokens_per_rate))
price_tokens-covers rate m body_len =
    elim (token_quote-rounds_up (estimated_input_tokens body_len) m rate) [
      | inl (over, missing) ↦ rw missing (inl refl)
      | inr (q, quoted, low, high) ↦ rw quoted (elim (Bool-cases (ltb 0 q)) [
        | inl pays ↦ rw pays (inr (low, high))
        | inr zero_quote ↦ rw zero_quote (inl refl)
      ])
    ]

-- With a rate for the model and a limit in the request, the quote is the unpayable maximum, or it
-- covers the estimated input and the whole output that was asked for, by less than one unit more.
pub token_price-covers :
    (ctx : PriceContext) (rate : TokenRate) (m : ℕ)
    → model_rate ctx.request ctx.backend ≡ some rate
    → ctx.request.max_tokens ≡ limit m
    → (token_price ctx ≡ u128_max)
      ⊎ ((cost_of (estimated_input_tokens ctx.request.body_len) m rate
            ≤ token_price ctx * tokens_per_rate)
          × (token_price ctx * tokens_per_rate
              < cost_of (estimated_input_tokens ctx.request.body_len) m rate + tokens_per_rate))
unfolding token_price
token_price-covers ctx rate m rated asked =
    rw (rated, asked) (price_tokens-covers rate m ctx.request.body_len)

-- Without a rate for the model, or without a limit in the request, the quote is the unpayable
-- maximum.
pub token_price-fails_closed :
    (ctx : PriceContext)
    → (model_rate ctx.request ctx.backend ≡ none)
      ⊎ ((m : ℕ) → (ctx.request.max_tokens ≡ limit m) → ⊥)
    → token_price ctx ≡ u128_max
unfolding token_price
token_price-fails_closed ctx h =
    closed (model_rate ctx.request ctx.backend) ctx.request.max_tokens h
  where
    closed :
        (rate : Option TokenRate) (asked : MaxTokens)
        → (rate ≡ none) ⊎ ((m : ℕ) → (asked ≡ limit m) → ⊥)
        → price_tokens rate asked ctx.request.body_len ≡ u128_max
    closed none asked h = refl
    closed (some rate) absent h = refl
    closed (some rate) invalid h = refl
    closed (some rate) (limit m) (inl e) = cc
    closed (some rate) (limit m) (inr e) = absurd (e m refl)
