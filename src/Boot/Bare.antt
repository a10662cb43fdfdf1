-- ===== src/Boot/Bare.antt =====
-- The gateway of an operator who sets the facilitator alone, for `main` of obolus/src/main.rs.
use Prim.Native.String.{◌++◌ as text_append}
use obolus.Prelude.{
  ℕ, ◌≡◌, ◌∙◌, refl, ap, sym, String, Bool, true, false, Option, none, some, List, [], ◌∷◌, str_eq,
}
use obolus.Prelude.Results.{ok}
use obolus.Payment.{PaymentRequirements, ResourceInfo}
use obolus.Backends.{Backend, single_ollama, trim_slashes}
use obolus.Backends.Build.{is_http}
use obolus.Arming.{ArmedRequirements, placeholder_network}
use obolus.Pricing.{static_price}
use obolus.Facilitator.Delegated.{DelegatedFacilitator, is_https}
use obolus.Gateway.{Gateway}
use obolus.Config.Pricing.{not_present, set, static_choice}
use obolus.Config.Window.{stdout}
use obolus.Boot.{World}
use obolus.Boot.Start.{Booted, Choices, boot}

abbrev pub placeholder_option : PaymentRequirements
placeholder_option = record {
  scheme = "exact";
  network = placeholder_network;
  amount = "1000";
  asset = "0xTEST-ASSET-ADDRESS-NOT-REAL";
  pay_to = "0xTEST-PAY-TO-ADDRESS-NOT-REAL";
  max_timeout_seconds = 300;
  extra = none;
}

abbrev pub bare_gateway : (addr : String) → Gateway
bare_gateway addr = record {
  backends = single_ollama "http://127.0.0.1:11434" 600000;
  resource = record {
    url = text_append "http://" (text_append addr "/v1/chat/completions");
    description = some "One inference request";
    mime_type = some "application/json";
  };
  requirements = placeholder_option ∷ [];
  price = static_price;
  max_output_tokens = 4096;
  model_rates_required = false;
}

-- A static rate, no promotion, telemetry on stdout, no token path, and the placeholder option, which
-- no client can pay.
abbrev pub bare : (url : String) → (addr : String) → Booted
bare url addr = record {
  addr = addr;
  facilitator = record {
    verify_url = text_append (trim_slashes url) "/verify";
    settle_url = text_append (trim_slashes url) "/settle";
    timeout = 315;
  };
  choices = record {
    pricing = static_choice;
    promo = none;
    telemetry = stdout;
    max_output_tokens = 4096;
  };
  armed = record { requirements = placeholder_option ∷ []; unproven = []; diagnosis = [] };
  gateway = bare_gateway addr;
  verifier = none;
}

module _ (world : World) (url addr : String) where
  -- With the facilitator's variable alone, set to an `http://` base, the process starts: it takes
  -- every default, and arms nothing.
  pub boot-bare :
      world.var "OBOLUS_FACILITATOR_URL" ≡ set url
      → ((key : String) → str_eq key "OBOLUS_FACILITATOR_URL" ≡ false → world.var key ≡ not_present)
      → is_https (trim_slashes url) ≡ false
      → is_http (trim_slashes url) ≡ true
      → world.parse_addr "127.0.0.1:8403" ≡ some addr
      → boot world ≡ ok (bare url addr)
  unfolding boot obolus.Facilitator.Delegated.new_facilitator obolus.Boot.Sources.sole_backend
      obolus.Config.Pricing.select_model_rates obolus.Boot.Sources.single_chain
      obolus.Config.parse_extra obolus.Config.validated_option obolus.Prelude.trim
      obolus.Amount.validate_atomic_amount obolus.Payment.Transfer.unsupported_transfer
      obolus.Config.Pricing.select_pricing obolus.Config.Window.select_promo
      obolus.Config.Window.select_telemetry obolus.Config.Window.select_max_output_tokens
      obolus.Config.Pricing.require_backend_costs obolus.Config.Pricing.require_backend_rates
      obolus.Arming.parse_arming obolus.Arming.check_arming obolus.Backends.single_ollama
      obolus.Arming.is_provably_testnet obolus.Gateway.new obolus.Gateway.check_option
      obolus.Boot.Tokens.token_path obolus.Amount.digit obolus.Amount.parse_u128 is_http
      obolus.Boot.Start.read_choices obolus.Boot.Start.check_backends obolus.Boot.Start.arm
  boot-bare named unset not_tls plain parsed =
      rw
        (
          unset "OBOLUS_ADDR" refl,
          parsed,
          named,
          unset "OBOLUS_MAX_TIMEOUT_SECS" refl,
          not_tls,
          plain,
          unset "OBOLUS_UPSTREAM_HEAD_TIMEOUT_SECS" refl,
          unset "OBOLUS_BACKENDS_FILE" refl,
          unset "OBOLUS_UPSTREAM_URL" refl,
          unset "OBOLUS_MODEL_RATES" refl,
          unset "OBOLUS_ACCEPTS" refl,
          unset "OBOLUS_EXTRA" refl,
          unset "OBOLUS_NETWORK" refl,
          unset "OBOLUS_ASSET" refl,
          unset "OBOLUS_PAY_TO" refl,
          unset "OBOLUS_PRICE" refl,
          unset "OBOLUS_PRICING" refl,
          unset "OBOLUS_UPSTREAM_COST" refl,
          unset "OBOLUS_MARGIN_BPS" refl,
          unset "OBOLUS_PROMO_DISCOUNT_BPS" refl,
          unset "OBOLUS_PROMO_START" refl,
          unset "OBOLUS_PROMO_END" refl,
          unset "OBOLUS_TELEMETRY" refl,
          unset "OBOLUS_MAX_OUTPUT_TOKENS" refl,
          unset "OBOLUS_ALLOW_MAINNET" refl,
          unset "OBOLUS_RESOURCE" refl,
          unset "OBOLUS_DESCRIPTION" refl,
          unset "OBOLUS_TOKEN_KEYS" refl,
          unset "OBOLUS_TOKEN_PUBKEY_FILE" refl,
          unset "OBOLUS_TOKEN_ISSUER" refl,
          unset "OBOLUS_TOKEN_AUDIENCE" refl,
        )
        refl
