-- ===== src/Boot/Sources.antt =====
-- The facilitator, the backends and the payment options that `main` of obolus/src/main.rs reads.
use Prim.Native.String.{◌++◌ as text_append}
use obolus.Prelude.{
  ℕ, ◌+◌, String, not, Option, none, some, List, [], ◌∷◌, is_empty, is_some, leb, ◌==◌, min, trim,
  if◌then◌else◌,
}
use obolus.Prelude.Results.{Result, ok, err, ◌>>=◌, ◌>>◌}
use obolus.Payment.{PaymentRequirements}
use obolus.Backends.{Backend, ModelRates, single_ollama, with_sole_rates}
use obolus.Backends.Rates.{RateDefect, not_json, Loose}
use obolus.Backends.Build.{is_http, load_backends}
use obolus.Json.{Value}
use obolus.Pricing.{u64_max}
use obolus.Arming.{placeholder_network}
use obolus.Facilitator.Delegated.{DelegatedFacilitator, new_facilitator, with_timeout}
use obolus.Gateway.{settle_reserve_secs}
use obolus.Config.{
  SharedOffer, parse_accepts, parse_extra, validated_option, extra_var,
  superseded_single_chain_vars,
}
use obolus.Config.Pricing.{select_model_rates}
use obolus.Boot.{
  World, BootError, bad_addr, no_facilitator_url, zero_head_timeout, short_window,
  facilitator_refused, set_but_empty, both_set, unreadable_file, empty_backends_file,
  backends_refused, not_http_upstream, rates_refused, superseded, accepts_refused, extra_refused,
  single_chain_refused, map_err, env, env_or,
}

abbrev pub or_bad_addr : Option String → Result BootError String
or_bad_addr none = err bad_addr
or_bad_addr (some addr) = ok addr

abbrev pub or_no_url : Option String → Result BootError String
or_no_url none = err no_facilitator_url
or_no_url (some url) = ok url

abbrev pub check_payment_window : (max_timeout_seconds : ℕ) → Result BootError (Unit {0})
check_payment_window max_timeout_seconds =
    if leb max_timeout_seconds settle_reserve_secs
    then err (short_window max_timeout_seconds)
    else ok tt

-- What a facilitator has for a settlement: the whole window and a margin, within a `u64`.
abbrev pub settle_timeout : (max_timeout_seconds : ℕ) → ℕ
settle_timeout max_timeout_seconds = min (max_timeout_seconds + 15) u64_max

abbrev pub check_head_timeout : ℕ → Result BootError (Unit {0})
check_head_timeout head_timeout = if head_timeout == 0 then err zero_head_timeout else ok tt

-- `anyhow::bail!` where a variable that would sit inert is set beside another.
abbrev pub refuse_both :
    (kept : String) → (inert : String) → Option String → Result BootError (Unit {0})
refuse_both kept inert none = ok tt
refuse_both kept inert (some _) = err (both_set kept inert)

abbrev pub refuse_empty : (var : String) → (raw : String) → Result BootError (Unit {0})
refuse_empty var raw = if is_empty (trim raw) then err (set_but_empty var) else ok tt

abbrev pub or_unreadable : (path : String) → Option String → Result BootError String
or_unreadable path none = err (unreadable_file path)
or_unreadable path (some content) =
    if is_empty (trim content) then err (empty_backends_file path) else ok content

abbrev pub or_not_json :
    Result String (Loose (Loose Value)) → Result RateDefect (Loose (Loose Value))
or_not_json (ok loose) = ok loose
or_not_json (err message) = err (not_json message)

abbrev pub with_rates : List Backend → Option ModelRates → List Backend
with_rates backends none = backends
with_rates backends (some rates) = with_sole_rates rates backends

abbrev pub refuse_superseded : List String → Result BootError (Unit {0})
refuse_superseded [] = ok tt
refuse_superseded (v ∷ vs) = err (superseded (v ∷ vs))

module _ (world : World) where
  abbrev pub model_rates : Result BootError (Option ModelRates)
  model_rates =
      map_err rates_refused
        (select_model_rates (λ raw. or_not_json (world.loose_rates raw)) world.var)

  -- The backends of a file.
  unfoldable pub backends_of_file :
      (path : String) → (head_timeout : ℕ) → Result BootError (List Backend)
  backends_of_file path head_timeout =
      refuse_empty "OBOLUS_BACKENDS_FILE" path
      >> (refuse_both "OBOLUS_BACKENDS_FILE" "OBOLUS_UPSTREAM_URL" (env world "OBOLUS_UPSTREAM_URL")
          >> (refuse_both "OBOLUS_BACKENDS_FILE" "OBOLUS_UPSTREAM_COST"
                (env world "OBOLUS_UPSTREAM_COST")
              >> (model_rates >>= λ _. or_unreadable path (world.read_text path) >>= λ raw.
                  map_err (backends_refused path) (
                    load_backends world.read_key world.header_safe world.backend_entries raw
                      head_timeout))))

  -- The one backend of the single-backend variables.
  unfoldable pub sole_backend : (head_timeout : ℕ) → Result BootError (List Backend)
  sole_backend head_timeout =
      let url = env_or world "OBOLUS_UPSTREAM_URL" "http://127.0.0.1:11434" in
      if not (is_http url)
      then err (not_http_upstream url)
      else (model_rates >>= λ rates. ok (with_rates (single_ollama url head_timeout) rates))

  abbrev pub backends_from :
      (file : Option String) → (head_timeout : ℕ) → Result BootError (List Backend)
  backends_from none head_timeout = sole_backend head_timeout
  backends_from (some path) head_timeout = backends_of_file path head_timeout

  abbrev pub shared_offer : (addr : String) → (max_timeout_seconds : ℕ) → SharedOffer
  shared_offer addr max_timeout_seconds = record {
    resource =
        env_or world "OBOLUS_RESOURCE"
          (text_append "http://" (text_append addr "/v1/chat/completions"));
    description = env_or world "OBOLUS_DESCRIPTION" "One inference request";
    max_timeout_seconds = max_timeout_seconds;
  }

  unfoldable pub single_chain : SharedOffer → Result BootError (List PaymentRequirements)
  single_chain shared =
      map_err extra_refused (parse_extra world.json_object (env world extra_var)) >>= λ extra.
      map_err single_chain_refused (
        validated_option (env_or world "OBOLUS_NETWORK" placeholder_network)
          (env_or world "OBOLUS_ASSET" "0xTEST-ASSET-ADDRESS-NOT-REAL")
          (env_or world "OBOLUS_PAY_TO" "0xTEST-PAY-TO-ADDRESS-NOT-REAL")
          (env_or world "OBOLUS_PRICE" "1000") extra shared)
      >>= λ option. ok (option ∷ [])

  unfoldable pub multi_chain :
      (raw : String) → SharedOffer → Result BootError (List PaymentRequirements)
  multi_chain raw shared =
      refuse_empty "OBOLUS_ACCEPTS" raw
      >> (refuse_superseded (superseded_single_chain_vars (λ k. is_some (env world k)))
          >> map_err accepts_refused (parse_accepts world.accept_entries raw shared))

  abbrev pub options_from :
      (accepts : Option String) → SharedOffer → Result BootError (List PaymentRequirements)
  options_from none shared = single_chain shared
  options_from (some raw) shared = multi_chain raw shared

  abbrev pub facilitator_from :
      (url : String) → (max_timeout_seconds : ℕ) → Result BootError DelegatedFacilitator
  facilitator_from url max_timeout_seconds =
      map_err facilitator_refused (new_facilitator url) >>= λ facilitator.
      ok (with_timeout (settle_timeout max_timeout_seconds) facilitator)
