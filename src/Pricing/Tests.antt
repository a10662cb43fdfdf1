-- ===== src/Pricing/Tests.antt =====
-- Concrete quotes.
use obolus.Prelude.{ℕ, ◌+◌, ◌*◌, ◌<◌, ◌≤◌, ◌≡◌, ◌⊎◌, refl, true, false, none, some}
use obolus.Amount.{u128_max}
use obolus.Request.{RequestShape}
use obolus.Request.Pass.{limit}
use obolus.Backends.{TokenRate}
use obolus.Fixtures.{base_option, small_backend}
use obolus.Pricing.{
  PriceContext, bps_per_whole, tokens_per_rate, estimated_input_tokens, model_rate, flat_price,
  cost_plus, token_price, promotional,
}
use obolus.Pricing.Token.{cost_of, token_price-covers}
use obolus.Pricing.Promotion.{promotional-bounds}

abbrev shape : RequestShape
shape = record {
  model = some "tiny";
  max_tokens = limit 100;
  max_completion_tokens = false;
  case_variant = none;
  n_other_than_one = false;
  best_of = false;
  read_in_full = true;
  body_len = 33;
}

abbrev ctx : PriceContext
ctx = record { request = shape; backend = small_backend; requirement = base_option }

abbrev rate : TokenRate
rate = record { input = 3000000; output = 15000000 }

-- Nine tokens in at $3 per million and a hundred out at $15: 1527 atomic units.
quoted : token_price ctx ≡ 1527
unfolding token_price model_rate obolus.Backends.rate_of obolus.Pricing.token_quote
    estimated_input_tokens
quoted = refl

rated : model_rate shape small_backend ≡ some rate
unfolding model_rate obolus.Backends.rate_of
rated = refl

token_price-covers_example :
    (token_price ctx ≡ u128_max)
    ⊎ ((cost_of (estimated_input_tokens 33) 100 rate ≤ token_price ctx * tokens_per_rate)
        × (token_price ctx * tokens_per_rate
            < cost_of (estimated_input_tokens 33) 100 rate + tokens_per_rate))
token_price-covers_example = token_price-covers ctx rate 100 rated refl

-- 2.5% on 400 is 10.
marked_up : cost_plus 250 ctx ≡ 410
unfolding cost_plus
marked_up = refl

-- 99.95% off a thousand is less than one unit, and costs one.
nearly_free : promotional 9995 100 200 (flat_price 1000) 150 ctx ≡ 1
unfolding promotional flat_price
nearly_free = refl

promotional-bounds_example :
    (promotional 9995 100 200 (flat_price 1000) 150 ctx ≤ flat_price 1000 ctx)
    × (0 < flat_price 1000 ctx → 0 < promotional 9995 100 200 (flat_price 1000) 150 ctx)
    × ((150 < 100) ⊎ (200 ≤ 150)
        → promotional 9995 100 200 (flat_price 1000) 150 ctx ≡ flat_price 1000 ctx)
promotional-bounds_example = promotional-bounds 9995 100 200 (flat_price 1000) 150 ctx

abbrev quarter_off : ℕ
quarter_off = promotional 2500 100 200 (λ c. 1001) 150 ctx
