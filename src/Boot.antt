-- ===== src/Boot.antt =====
-- What `main` of obolus/src/main.rs makes of its environment before it serves: the parts that it
-- reads, in its order, and its refusals. The environment, the files, the clock and the readers of
-- JSON, keys and addresses are a parameter; the lines that it prints are not modelled.
pub mod Sources
pub mod Tokens
pub mod Start
pub mod Offers
pub mod Keys
pub mod Parts
pub mod Ready
pub mod Served
pub mod Bare
mod Tests
use obolus.Prelude.{ℕ, ◌*◌, String, Option, none, some, unwrap_or, List, Bool}
use obolus.Prelude.Results.{Result, ok, err}
use obolus.Json.{Fields}
use obolus.Payment.Codec.{Bytes}
use obolus.Backends.Rates.{Loose, RateDefect}
use obolus.Backends.Registry.{BackendError}
use obolus.Backends.Build.{BackendEntry, KeyFile}
use obolus.Pricing.{u64_max}
use obolus.Access.KeySet.{Jwt, KeyError}
use obolus.Access.KeyFiles.{TokenKeyEntry, KeyFilesError}
use obolus.Arming.{ArmingValueError, ArmingRefusal}
use obolus.Facilitator.Delegated.{DelegatedFacilitatorError}
use obolus.Gateway.{GatewayError}
use obolus.Config.{AcceptEntry, ConfigError, EntryDefect, ExtraError}
use obolus.Config.Pricing.{EnvVar, ok_var, parse_up_to, PricingConfigError, ModelRatesConfigError}
use obolus.Config.Window.{PromoConfigError, TelemetryConfigError, OutputCapConfigError}
use obolus.Json.{Value}

-- What surrounds the process when it starts. An address is kept as it is printed.
pub record World : Type 0 where
  pub var : String → EnvVar
  pub now_unix : ℕ
  pub parse_addr : String → Option String
  pub read_text : (path : String) → Option String
  pub read_bytes : (path : String) → Option Bytes
  pub read_key : (path : String) → KeyFile
  pub header_safe : String → Bool
  pub backend_entries : String → Result String (List BackendEntry)
  pub loose_rates : String → Result String (Loose (Loose Value))
  pub accept_entries : String → Result String (List AcceptEntry)
  pub json_object : String → Result String Fields
  pub key_entries : String → Result String (List TokenKeyEntry)
  pub jwt : Jwt

-- Each refusal to start, by what its message names.
pub data BootError : Type 0 where
  bad_addr no_facilitator_url zero_head_timeout : BootError
  not_seconds : (var : String) → BootError
  short_window : (max_timeout_seconds : ℕ) → BootError
  facilitator_refused : DelegatedFacilitatorError → BootError
  set_but_empty : (var : String) → BootError
  both_set : (kept : String) → (inert : String) → BootError
  unreadable_file empty_backends_file : (path : String) → BootError
  backends_refused : (path : String) → BackendError → BootError
  not_http_upstream : (url : String) → BootError
  rates_refused : ModelRatesConfigError → BootError
  superseded : (vars : List String) → BootError
  accepts_refused : ConfigError → BootError
  extra_refused : ExtraError → BootError
  single_chain_refused : EntryDefect → BootError
  pricing_refused : PricingConfigError → BootError
  promo_refused : PromoConfigError → BootError
  telemetry_refused : TelemetryConfigError → BootError
  cap_refused : OutputCapConfigError → BootError
  arming_not_unicode : BootError
  arming_value_refused : ArmingValueError → BootError
  arming_refused : ArmingRefusal → BootError
  options_refused : GatewayError → BootError
  key_files_refused : KeyFilesError → BootError
  orphaned_token_vars : (vars : List String) → BootError
  no_issuer : (source : String) → BootError
  unreadable_key : (source : String) → (file : String) → BootError
  keys_refused : (source : String) → KeyError → BootError

-- `map_err`.
abbrev pub map_err : {E F A : Type 0} → (E → F) → Result E A → Result F A
map_err why (ok a) = ok a
map_err why (err e) = err (why e)

module _ (world : World) where
  -- `std::env::var(key).ok()`.
  abbrev pub env : String → Option String
  env key = ok_var (world.var key)

  abbrev pub env_or : (key : String) → (default : String) → String
  env_or key default = unwrap_or (env key) default

abbrev pub or_not_seconds : (key : String) → Option ℕ → Result BootError ℕ
or_not_seconds key none = err (not_seconds key)
or_not_seconds key (some n) = ok n

abbrev pub seconds_or : (key : String) → (default : ℕ) → Option String → Result BootError ℕ
seconds_or key default none = ok default
seconds_or key default (some raw) = or_not_seconds key (parse_up_to u64_max raw)

-- `env_u64`.
abbrev pub env_u64 : World → (key : String) → (default : ℕ) → Result BootError ℕ
env_u64 world key default = seconds_or key default (env world key)

abbrev pub milliseconds : (seconds : ℕ) → ℕ
milliseconds seconds = seconds * 1000
