-- ===== src/Boot/Tests.antt =====
-- A start with the one setting that has no default, and a request that it serves.
use obolus.Prelude.{
  ℕ, ◌≡◌, ◌⊎◌, refl, String, Bool, true, false, Option, none, some, List, [], ◌∷◌, str_eq,
  if◌then◌else◌,
}
use obolus.Prelude.Results.{ok, err}
use obolus.Json.{end}
use obolus.Payment.{ResourceInfo, PaymentRequirements}
use obolus.Backends.{Backend, ModelRates, single_ollama}
use obolus.Backends.Build.{KeyFile, unreadable}
use obolus.Access.{unset, visible, bearer_token}
use obolus.Facilitator.{unavailable, unreachable}
use obolus.Request.{parse}
use obolus.Access.KeySet.{
  verify_token, Jwt, Validation, ErrorKind, invalid_signature, PublicKeyTokenVerifier,
  validation_for,
}
use obolus.Arming.{ArmedRequirements, placeholder_network}
use obolus.Pricing.{static_price}
use obolus.Facilitator.Delegated.{DelegatedFacilitator}
use obolus.Gateway.{Gateway, UpstreamResponse}
use obolus.Gateway.Steps.{Env, run}
use obolus.Gateway.Paid.{Outside}
use obolus.Gateway.Serve.{Arrived, serve}
use obolus.Gateway.Protocol.{serves_work}
use obolus.Fixtures.{engines, small_document}
use obolus.Config.{exact_option}
use obolus.Config.Pricing.{EnvVar, not_present, set, static_choice}
use obolus.Config.Window.{stdout}
use obolus.Boot.{World, BootError, no_facilitator_url, short_window}
use obolus.Boot.Start.{Booted, access_at, boot}
use obolus.Boot.Ready.{IsReady, boot-IsReady}
use obolus.Facilitator.Delegated.{is_https}
use obolus.Backends.{trim_slashes}
use obolus.Backends.Build.{is_http}
use obolus.Boot.Bare.{bare, boot-bare}
use obolus.Boot.Served.{IsHonoured, IsPaidOnAllowed, boot-work_is_paid}

abbrev toy_jwt : Jwt
toy_jwt = record {
  from_ed_pem = λ pem. some pem;
  header_kid = λ token. none;
  decode = λ token key v. if str_eq token "good" then none else some invalid_signature;
}

abbrev settings : String → EnvVar
settings k =
    if str_eq k "OBOLUS_FACILITATOR_URL"
    then set "http://facilitator/"
    else if str_eq k "OBOLUS_TOKEN_PUBKEY_FILE"
    then set "key.pem"
    else if str_eq k "OBOLUS_TOKEN_ISSUER"
    then set "issuer"
    else not_present

abbrev world : World
world = record {
  var = settings;
  now_unix = 1700000000;
  parse_addr = λ s. some s;
  read_text = λ path. none;
  read_bytes = λ path. some (1 ∷ []);
  read_key = λ path. unreadable "no file";
  header_safe = λ s. true;
  backend_entries = λ s. err "no file";
  loose_rates = λ s. err "no rates";
  accept_entries = λ s. err "no entries";
  json_object = λ s. ok end;
  key_entries = λ s. err "no keys";
  jwt = toy_jwt;
}

abbrev unconfigured : PaymentRequirements
unconfigured = record {
  scheme = "exact";
  network = placeholder_network;
  amount = "1000";
  asset = "0xTEST-ASSET-ADDRESS-NOT-REAL";
  pay_to = "0xTEST-PAY-TO-ADDRESS-NOT-REAL";
  max_timeout_seconds = 300;
  extra = none;
}

abbrev booted : Booted
booted = record {
  addr = "127.0.0.1:8403";
  facilitator = record {
    verify_url = "http://facilitator/verify";
    settle_url = "http://facilitator/settle";
    timeout = 315;
  };
  choices = record {
    pricing = static_choice;
    promo = none;
    telemetry = stdout;
    max_output_tokens = 4096;
  };
  armed = record { requirements = unconfigured ∷ []; unproven = []; diagnosis = [] };
  gateway = record {
    backends = single_ollama "http://127.0.0.1:11434" 600000;
    resource = record {
      url = "http://127.0.0.1:8403/v1/chat/completions";
      description = some "One inference request";
      mime_type = some "application/json";
    };
    requirements = unconfigured ∷ [];
    price = static_price;
    max_output_tokens = 4096;
    model_rates_required = false;
  };
  verifier = some (record {
    keys = record { kid = none; key = 1 ∷ [] } ∷ [];
    validation = validation_for "issuer" none;
  });
}

started : boot world ≡ ok booted
unfolding boot obolus.Facilitator.Delegated.new_facilitator obolus.Backends.trim_slashes
    obolus.Backends.Build.is_http obolus.Boot.Sources.sole_backend
    obolus.Config.Pricing.select_model_rates obolus.Boot.Sources.single_chain
    obolus.Config.parse_extra obolus.Config.validated_option obolus.Prelude.trim
    obolus.Amount.validate_atomic_amount obolus.Payment.Transfer.unsupported_transfer
    obolus.Config.Pricing.select_pricing obolus.Config.Window.select_promo
    obolus.Config.Window.select_telemetry obolus.Config.Window.select_max_output_tokens
    obolus.Config.Pricing.require_backend_costs obolus.Config.Pricing.require_backend_rates
    obolus.Backends.single_ollama obolus.Arming.parse_arming obolus.Arming.check_arming
    obolus.Arming.is_provably_testnet obolus.Gateway.new obolus.Gateway.check_option
    obolus.Boot.Tokens.token_path obolus.Access.KeySet.with_keys obolus.Access.KeySet.material_of
    obolus.Access.KeySet.bytes_eq obolus.Amount.digit obolus.Amount.parse_u128
started = refl

-- No facilitator is guessed.
no_default : boot (record world { var = λ k. not_present }) ≡ err no_facilitator_url
unfolding boot
no_default = refl

boot-IsReady_example : IsReady world booted
boot-IsReady_example = boot-IsReady world booted started

abbrev outside : Outside
outside = record { engines = engines; read = λ b. small_document; header_safe = λ s. true }

abbrev member : Arrived
member = record { authorization = visible "Bearer good"; signature = unset; body = 123 ∷ 125 ∷ [] }

abbrev answering : Env
answering = record {
  verify = λ p r. (ok tt, 5);
  forward = λ u b. record {
    head = some (record { status = 200; content_type = none; body = 104 ∷ [] });
    took = 7;
  };
  settle = λ p r. err (unavailable unreachable);
}

served :
    serves_work
      (run answering 3 (serve outside (access_at world booted 1700000001) member)).response
    ≡ true
unfolding serve access_at run parse obolus.Request.Pass.step_key obolus.Request.Keys.key_of
    obolus.Backends.route obolus.Backends.single_ollama bearer_token verify_token
    obolus.Access.KeySet.try_keys obolus.Access.KeySet.ordered_by obolus.Gateway.proxy_response
    obolus.Prelude.trim obolus.Access.split_at_space obolus.Prelude.same_letters
served = refl

boot-work_is_paid_example :
    IsHonoured world booted (visible "Bearer good")
    ⊎ IsPaidOnAllowed world booted answering
        (run answering 3 (serve outside (access_at world booted 1700000001) member))
boot-work_is_paid_example =
    boot-work_is_paid outside world booted 1700000001 member answering 3 started served

-- The facilitator's variable and nothing else.
abbrev bare_world : World
bare_world = record world {
  var = λ k. if str_eq k "OBOLUS_FACILITATOR_URL" then set "http://facilitator/" else not_present;
}

others_unset :
    (key : String) → str_eq key "OBOLUS_FACILITATOR_URL" ≡ false → bare_world.var key ≡ not_present
others_unset key other = rw other refl

not_tls : is_https (trim_slashes "http://facilitator/") ≡ false
unfolding trim_slashes
not_tls = refl

plain : is_http (trim_slashes "http://facilitator/") ≡ true
unfolding trim_slashes is_http
plain = refl

boot-bare_example : boot bare_world ≡ ok (bare "http://facilitator/" "127.0.0.1:8403")
boot-bare_example =
    boot-bare bare_world "http://facilitator/" "127.0.0.1:8403" refl others_unset not_tls plain refl
