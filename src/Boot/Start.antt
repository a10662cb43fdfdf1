-- ===== src/Boot/Start.antt =====
-- `main` of obolus/src/main.rs, up to the point where it serves: a gateway that is ready, or the first
-- refusal.
use obolus.Prelude.{ℕ, String, Bool, Option, none, some, List}
use obolus.Prelude.Results.{Result, ok, err, ◌>>=◌, ◌>>◌}
use obolus.Payment.{PaymentRequirements}
use obolus.Backends.{Backend, with_sole_cost}
use obolus.Pricing.{PriceDeterminer, static_price, cost_plus, token_price, promotional}
use obolus.Access.KeySet.{PublicKeyTokenVerifier, verify_token}
use obolus.Access.KeySet.Rotation.{is_ok}
use obolus.Arming.{ArmedRequirements, parse_arming, check_arming}
use obolus.Facilitator.Delegated.{DelegatedFacilitator}
use obolus.Gateway.{
  Gateway, new, with_model_rates_required, with_max_output_tokens, with_price_determiner,
}
use obolus.Gateway.Serve.{Access}
use obolus.Config.{resource_info}
use obolus.Config.Pricing.{
  EnvVar, not_present, opaque, set, PricingChoice, static_choice, token_choice, cost_plus_choice,
  select_pricing, require_backend_costs, require_backend_rates,
}
use obolus.Config.Window.{
  PromoConfig, TelemetryChoice, select_promo, select_telemetry, select_max_output_tokens,
}
use obolus.Boot.{
  World, BootError, pricing_refused, promo_refused, telemetry_refused, cap_refused,
  arming_not_unicode, arming_value_refused, arming_refused, options_refused, map_err, env, env_or,
  env_u64, milliseconds,
}
use obolus.Boot.Sources.{
  or_bad_addr, or_no_url, check_payment_window, check_head_timeout, facilitator_from, backends_from,
  shared_offer, options_from,
}
use obolus.Boot.Tokens.{token_path}

-- What the operator chose, beside the parts.
pub record Choices : Type 0 where
  pub pricing : PricingChoice
  pub promo : Option PromoConfig
  pub telemetry : TelemetryChoice
  pub max_output_tokens : ℕ

pub record Booted : Type 0 where
  pub addr : String
  pub facilitator : DelegatedFacilitator
  pub choices : Choices
  pub armed : ArmedRequirements
  -- As `Gateway::new` leaves it.
  pub gateway : Gateway
  pub verifier : Option PublicKeyTokenVerifier

abbrev pub with_cost : PricingChoice → List Backend → List Backend
with_cost (cost_plus_choice margin_bps (some cost)) backends = with_sole_cost cost backends
with_cost _ backends = backends

abbrev pub read_arming : EnvVar → Result BootError (Option String)
read_arming not_present = ok none
read_arming opaque = err arming_not_unicode
read_arming (set value) = ok (some value)

abbrev pub base_determiner : PricingChoice → PriceDeterminer
base_determiner static_choice = static_price
base_determiner (cost_plus_choice margin_bps upstream_cost) = cost_plus margin_bps
base_determiner token_choice = token_price

-- `now` is what the promotion's clock reads for a quote.
abbrev pub promoted : Option PromoConfig → (now : ℕ) → PriceDeterminer → PriceDeterminer
promoted none now base = base
promoted (some p) now base = promotional p.discount_bps p.start p.end base now

abbrev pub requiring_rates : PricingChoice → Gateway → Gateway
requiring_rates token_choice gateway = with_model_rates_required gateway
requiring_rates _ gateway = gateway

-- The gateway as it serves a request that is quoted at `now`.
unfoldable pub gateway_at : Booted → (now : ℕ) → Gateway
gateway_at booted now = requiring_rates booted.choices.pricing (
    with_max_output_tokens booted.choices.max_output_tokens (
      with_price_determiner
        (promoted booted.choices.promo now (base_determiner booted.choices.pricing))
        booted.gateway))

module _ (world : World) where
  abbrev pub verdict_of : Option PublicKeyTokenVerifier → Option (String → Bool)
  verdict_of none = none
  verdict_of (some verifier) = some (λ token. is_ok (verify_token world.jwt verifier token))

  unfoldable pub access_at : Booted → (now : ℕ) → Access
  unfolding gateway_at
  access_at booted now = record {
    token_path = verdict_of booted.verifier;
    gateway = gateway_at booted now;
  }

  unfoldable pub read_choices : Result BootError Choices
  read_choices = map_err pricing_refused (select_pricing (env world)) >>= λ pricing.
      map_err promo_refused (select_promo (env world) world.now_unix) >>= λ promo.
      map_err telemetry_refused (select_telemetry (env world)) >>= λ telemetry.
      map_err cap_refused (select_max_output_tokens (env world)) >>= λ max_output_tokens.
      ok (record {
        pricing = pricing;
        promo = promo;
        telemetry = telemetry;
        max_output_tokens = max_output_tokens;
      })

  -- The backends as the rate needs them.
  unfoldable pub check_backends : PricingChoice → List Backend → Result BootError (List Backend)
  check_backends pricing backends =
      map_err pricing_refused (require_backend_costs (with_cost pricing backends) pricing)
      >> (map_err pricing_refused (require_backend_rates (with_cost pricing backends) pricing)
          >> ok (with_cost pricing backends))

  unfoldable pub arm : List PaymentRequirements → Result BootError ArmedRequirements
  arm requirements = read_arming (world.var "OBOLUS_ALLOW_MAINNET") >>= λ raw_arming.
      map_err arming_value_refused (parse_arming raw_arming) >>= λ armed_for.
      map_err arming_refused (check_arming requirements armed_for)

  -- `main`, in its order.
  unfoldable pub boot : Result BootError Booted
  unfolding read_choices check_backends arm
  boot = or_bad_addr (world.parse_addr (env_or world "OBOLUS_ADDR" "127.0.0.1:8403")) >>= λ addr.
      or_no_url (env world "OBOLUS_FACILITATOR_URL") >>= λ facilitator_url.
      env_u64 world "OBOLUS_MAX_TIMEOUT_SECS" 300 >>= λ max_timeout_seconds.
      check_payment_window max_timeout_seconds >>= λ _.
      facilitator_from world facilitator_url max_timeout_seconds >>= λ facilitator.
      env_u64 world "OBOLUS_UPSTREAM_HEAD_TIMEOUT_SECS" 600 >>= λ head_timeout_secs.
      check_head_timeout head_timeout_secs >>= λ _.
      backends_from world (env world "OBOLUS_BACKENDS_FILE") (milliseconds head_timeout_secs)
      >>= λ backends.
          options_from world (env world "OBOLUS_ACCEPTS")
            (shared_offer world addr max_timeout_seconds)
          >>= λ requirements. read_choices >>= λ choices.
              check_backends choices.pricing backends >>= λ backends. arm requirements >>= λ armed.
              map_err options_refused
                (new backends (resource_info (shared_offer world addr max_timeout_seconds)) armed)
              >>= λ gateway. token_path world >>= λ verifier. ok (record {
                addr = addr;
                facilitator = facilitator;
                choices = choices;
                armed = armed;
                gateway = gateway;
                verifier = verifier;
              })
