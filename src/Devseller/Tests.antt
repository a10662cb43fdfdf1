-- ===== src/Devseller/Tests.antt =====
-- A payment that the development seller accepts, and one that comes a second too early.
use obolus.Prelude.{
  ℕ, ◌+◌, ◌≡◌, ◌↔◌, refl, String, true, false, Option, none, some, List, [], ◌∷◌, str_eq,
  if◌then◌else◌,
}
use obolus.Prelude.Results.{ok, err}
use obolus.Json.{Value, string, number, unsigned, object, field, end}
use obolus.Payment.{PaymentRequirements, PaymentPayload}
use obolus.Eip3009.{Crypto, zeros}
use obolus.Devseller.{not_yet_valid, numeric_uint, uint_field}
use obolus.Devseller.Modes.{from_env, verify_offline, succeed, no_delay, settle_delay_var}
use obolus.Devseller.Facilitator.{DevFacilitator, refused, dev_verify, render_address}
use obolus.Backends.{ollama, single}
use obolus.Backends.Build.{unreadable}
use obolus.Pricing.{static_price}
use obolus.Config.Pricing.{EnvVar, not_present, set}
use obolus.Boot.{World}
use obolus.Devseller.Sources.{canned_upstream, open_proxy, wants_help}
use obolus.Devseller.Start.{DevBooted, dev_boot}
use obolus.Devseller.Harmless.{IsHarmless, dev_boot-IsHarmless}
use obolus.Devseller.Judged.{IsGenuine, dev_verify-iff_IsGenuine}

-- A hash and a curve for which every signature is that of the account zero.
abbrev toy : Crypto
unfolding zeros
toy = record {
  keccak256 = λ bytes. zeros 32;
  is_signature = λ bytes. true;
  recover_from_prehash = λ digest signature recid. some (4 ∷ zeros 64);
  hex_decode = λ s.
      if str_eq s "00"
      then some (zeros 20)
      else if str_eq s "07"
      then some (zeros 32)
      else if str_eq s "cc"
      then some (zeros 65)
      else none;
}

abbrev option : PaymentRequirements
option = record {
  scheme = "exact";
  network = "eip155:84532";
  amount = "1000";
  asset = "0x00";
  pay_to = "0x00";
  max_timeout_seconds = 60;
  extra = some (object (field "name" (string "USDC") (field "version" (string "2") end)));
}

abbrev authorization : Value
authorization = object (
    field "from" (string "0x00") (
      field "nonce" (string "0x07") (
        field "to" (string "0x00") (
          field "validAfter" (string "100")
            (field "validBefore" (string "200") (field "value" (string "1000") end))))))

abbrev payment : PaymentPayload
payment = record {
  accepted = option;
  received = object (
      field "payload"
        (object (field "authorization" authorization (field "signature" (string "0xcc") end))) end);
}

abbrev seller : DevFacilitator
seller = record { verify = verify_offline; settle = succeed; now = 101 }

genuine : dev_verify toy seller payment option ≡ ok tt
unfolding dev_verify zeros obolus.Json.get_field obolus.Eip3009.decode_hex_array
    obolus.Eip3009.decode_hex obolus.Amount.parse_u128 obolus.Access.KeySet.bytes_eq
    obolus.Prelude.trim obolus.Eip3009.recover_address obolus.Eip3009.drop
genuine = refl

-- The boundary is outside the window.
early :
    dev_verify toy (record seller { now = 100 }) payment option
    ≡ err (refused (not_yet_valid 100 100))
unfolding dev_verify zeros obolus.Json.get_field obolus.Eip3009.decode_hex_array
    obolus.Eip3009.decode_hex obolus.Amount.parse_u128 obolus.Access.KeySet.bytes_eq
early = refl

dev_verify-iff_IsGenuine_example :
    (dev_verify toy seller payment option ≡ ok tt) ↔ IsGenuine toy 101 payment option
dev_verify-iff_IsGenuine_example = dev_verify-iff_IsGenuine toy seller payment option refl

not_a_number :
    uint_field (object (field "value" (number (unsigned 5)) end)) "value"
    ≡ err (numeric_uint "value")
unfolding obolus.Json.get_field
not_a_number = refl

rendered : render_address (0 ∷ 171 ∷ []) ≡ "0x00ab"
unfolding obolus.Devseller.Facilitator.hex_bytes
rendered = refl

no_wait :
    from_env (λ k.
      if str_eq k "OBOLUS_DEV_SETTLE"
      then some "timeout"
      else if str_eq k settle_delay_var
      then some "0"
      else none)
    ≡ err (no_delay settle_delay_var)
unfolding from_env obolus.Prelude.trim obolus.Amount.parse_u128
no_wait = refl

abbrev settings : String → EnvVar
settings k =
    if str_eq k "OBOLUS_NETWORK"
    then set "eip155:84532"
    else if str_eq k "OBOLUS_ASSET"
    then set "0x00"
    else if str_eq k "OBOLUS_PAY_TO"
    then set "0x00"
    else if str_eq k "OBOLUS_EXTRA"
    then set "USDC 2"
    else not_present

abbrev world : World
world = record {
  var = settings;
  now_unix = 150;
  parse_addr = λ s. some s;
  read_text = λ path. none;
  read_bytes = λ path. none;
  read_key = λ path. unreadable "no file";
  header_safe = λ s. true;
  backend_entries = λ s. err "no file";
  loose_rates = λ s. err "no rates";
  accept_entries = λ s. err "no entries";
  json_object = λ s. ok (field "name" (string "USDC") (field "version" (string "2") end));
  key_entries = λ s. err "no keys";
  jwt = record {
    from_ed_pem = λ pem. none;
    header_kid = λ token. none;
    decode = λ token key v. none;
  };
}

abbrev started : DevBooted
started = record {
  addr = "127.0.0.1:8404";
  dev = record { verify = verify_offline; settle = succeed };
  upstream_url = none;
  access = record {
    token_path = none;
    gateway = record {
      backends = single "devseller" ollama "canned://devseller" canned_upstream;
      resource = record {
        url = "http://127.0.0.1:8404/v1/chat/completions";
        description = some "One inference request (development seller)";
        mime_type = some "application/json";
      };
      requirements = option ∷ [];
      price = static_price;
      max_output_tokens = 4096;
      model_rates_required = false;
    };
  };
}

starts : dev_boot toy world [] ≡ ok (some started)
unfolding dev_boot zeros obolus.Backends.trim_slashes obolus.Backends.Build.is_http
    obolus.Devseller.Sources.sole_option obolus.Config.parse_extra obolus.Config.validated_option
    obolus.Config.check_domain obolus.Prelude.trim obolus.Amount.validate_atomic_amount
    obolus.Payment.Transfer.unsupported_transfer obolus.Config.Window.select_max_output_tokens
    obolus.Json.get_field obolus.Backends.single obolus.Arming.check_arming
    obolus.Eip3009.decode_hex_array obolus.Eip3009.decode_hex obolus.Devseller.Verify.chain_id_of
    obolus.Devseller.Verify.domain_for obolus.Arming.is_provably_testnet obolus.Gateway.new
    obolus.Gateway.check_option obolus.Amount.digit obolus.Amount.parse_u128
starts = refl

dev_boot-IsHarmless_example : IsHarmless toy world started × (wants_help [] ≡ ok false)
dev_boot-IsHarmless_example = dev_boot-IsHarmless toy world [] started starts

-- A real upstream behind a seller that accepts everything.
abbrev open_settings : String → EnvVar
open_settings k =
    if str_eq k "OBOLUS_DEV_VERIFY"
    then set "accept"
    else if str_eq k "OBOLUS_UPSTREAM_URL"
    then set "http://model"
    else settings k

unacknowledged :
    dev_boot toy (record world { var = open_settings }) [] ≡ err (open_proxy "127.0.0.1:8404")
unfolding dev_boot zeros obolus.Backends.trim_slashes obolus.Backends.Build.is_http
    obolus.Devseller.Sources.sole_option obolus.Config.parse_extra obolus.Config.validated_option
    obolus.Config.check_domain obolus.Prelude.trim obolus.Amount.validate_atomic_amount
    obolus.Payment.Transfer.unsupported_transfer obolus.Config.Window.select_max_output_tokens
    obolus.Json.get_field obolus.Backends.single obolus.Arming.check_arming
    obolus.Eip3009.decode_hex_array obolus.Eip3009.decode_hex obolus.Devseller.Verify.chain_id_of
    obolus.Devseller.Verify.domain_for obolus.Arming.is_provably_testnet obolus.Gateway.new
    obolus.Gateway.check_option obolus.Amount.digit obolus.Amount.parse_u128
unacknowledged = refl
