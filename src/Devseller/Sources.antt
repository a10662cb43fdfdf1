-- ===== src/Devseller/Sources.antt =====
-- What `main` of devseller/src/main.rs reads before its guards: the arguments, the settings and the
-- payment options, with its refusals.
use Prim.Native.String.{◌++◌ as text_append}
use obolus.Prelude.{
  ℕ, String, Bool, true, false, not, Option, none, some, List, [], ◌∷◌, is_empty, is_some, trim,
  str_eq, ◌||◌, if◌then◌else◌,
}
use obolus.Prelude.Results.{Result, ok, err, ◌>>=◌, ◌>>◌}
use obolus.Payment.{PaymentRequirements}
use obolus.Backends.{Upstream, proxy, handle, new_upstream}
use obolus.Backends.Build.{is_http}
use obolus.Arming.{ArmingRefusal, placeholder_network}
use obolus.Gateway.{GatewayError}
use obolus.Config.{
  SharedOffer, EntryDefect, ExtraError, parse_accepts, parse_extra, validated_option, extra_var,
  superseded_single_chain_vars,
}
use obolus.Config.{ConfigError as OptionsError}
use obolus.Config.Pricing.{EnvVar, not_present, opaque, set}
use obolus.Config.Window.{OutputCapConfigError}
use obolus.Boot.{World, map_err, env}
use obolus.Devseller.{VerifyError}
use obolus.Devseller.Modes.{ConfigError}

-- An option that a check refuses, by its position from 1.
pub record Offender : Type 0 where
  pub position : ℕ
  pub network : String
  pub why : VerifyError

-- Each refusal to start, by what its message names.
pub data DevBootError : Type 0 where
  unexpected_argument : (argument : String) → DevBootError
  empty_value retired : (key : String) → DevBootError
  bad_address empty_options arming_override : DevBootError
  modes_refused : ConfigError → DevBootError
  output_cap_refused : OutputCapConfigError → DevBootError
  not_plain_http : (url : String) → DevBootError
  superseded_vars : (vars : List String) → DevBootError
  options_malformed : OptionsError → DevBootError
  extra_malformed : ExtraError → DevBootError
  option_unusable : EntryDefect → DevBootError
  not_testnet : ArmingRefusal → DevBootError
  on_placeholder_network placeholder_recipient : (options : List PaymentRequirements) → DevBootError
  cannot_be_paid : (via_accepts : Bool) → (offenders : List Offender) → DevBootError
  cannot_be_verified : (offenders : List Offender) → DevBootError
  open_proxy : (addr : String) → DevBootError
  gateway_refused : GatewayError → DevBootError

-- Whether the arguments ask for the usage: the first one decides.
abbrev pub wants_help : (args : List String) → Result DevBootError Bool
wants_help [] = ok false
wants_help (arg ∷ args) =
    if str_eq arg "-h" || str_eq arg "--help" then ok true else err (unexpected_argument arg)

-- `TOKEN_NAME_VAR` and `TOKEN_VERSION_VAR`.
abbrev pub retired_vars : List String
retired_vars = "OBOLUS_DEV_TOKEN_NAME" ∷ "OBOLUS_DEV_TOKEN_VERSION" ∷ []

-- `var_os(key).is_some()`.
abbrev pub is_present : EnvVar → Bool
is_present not_present = false
is_present opaque = true
is_present (set value) = true

abbrev pub value_or :
    (key : String) → (default : String) → Option String → Result DevBootError String
value_or key default none = ok default
value_or key default (some raw) = if is_empty (trim raw) then err (empty_value key) else ok raw

abbrev pub or_bad_address : Option String → Result DevBootError String
or_bad_address none = err bad_address
or_bad_address (some addr) = ok addr

-- `CannedUpstream`.
abbrev pub canned_upstream : Upstream
canned_upstream = handle 0

abbrev pub upstream_from : (url : Option String) → Result DevBootError Upstream
upstream_from none = ok canned_upstream
upstream_from (some url) =
    if not (is_http url) then err (not_plain_http url) else ok (proxy (new_upstream url))

abbrev pub refuse_ignored : List String → Result DevBootError (Unit {0})
refuse_ignored [] = ok tt
refuse_ignored (v ∷ vs) = err (superseded_vars (v ∷ vs))

module _ (world : World) where
  -- `env_or`.
  abbrev pub dev_env_or : (key : String) → (default : String) → Result DevBootError String
  dev_env_or key default = value_or key default (env world key)

  abbrev pub refuse_retired : (keys : List String) → Result DevBootError (Unit {0})
  refuse_retired [] = ok tt
  refuse_retired (key ∷ keys) =
      if is_present (world.var key) then err (retired key) else refuse_retired keys

  unfoldable pub dev_shared_offer : (addr : String) → Result DevBootError SharedOffer
  dev_shared_offer addr =
      dev_env_or "OBOLUS_RESOURCE" (text_append "http://" (text_append addr "/v1/chat/completions"))
      >>= λ resource.
          dev_env_or "OBOLUS_DESCRIPTION" "One inference request (development seller)"
          >>= λ description.
              ok (record {
                resource = resource;
                description = description;
                max_timeout_seconds = 60;
              })

  unfoldable pub sole_option : SharedOffer → Result DevBootError (List PaymentRequirements)
  sole_option shared = dev_env_or "OBOLUS_NETWORK" placeholder_network >>= λ network.
      dev_env_or "OBOLUS_ASSET" "0xTEST-ASSET-ADDRESS-NOT-REAL" >>= λ asset.
      dev_env_or "OBOLUS_PAY_TO" "0xTEST-PAY-TO-ADDRESS-NOT-REAL" >>= λ pay_to.
      dev_env_or "OBOLUS_PRICE" "1000" >>= λ price.
      map_err extra_malformed (parse_extra world.json_object (env world extra_var)) >>= λ extra.
      map_err option_unusable (validated_option network asset pay_to price extra shared)
      >>= λ option. ok (option ∷ [])

  unfoldable pub listed_options :
      (raw : String) → SharedOffer → Result DevBootError (List PaymentRequirements)
  listed_options raw shared =
      if is_empty (trim raw)
      then err empty_options
      else (refuse_ignored (superseded_single_chain_vars (λ k. is_some (env world k)))
          >> map_err options_malformed (parse_accepts world.accept_entries raw shared))

  abbrev pub dev_options :
      (accepts : Option String) → SharedOffer → Result DevBootError (List PaymentRequirements)
  dev_options none shared = sole_option shared
  dev_options (some raw) shared = listed_options raw shared
