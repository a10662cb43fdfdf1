-- ===== src/Config/Pricing.antt =====
-- The choice of a rate, for `select_pricing`, `require_backend_costs`, `require_backend_rates` and
-- `select_model_rates` of obolus/src/config.rs. `get` reads a variable, as `std::env::var` does. The
-- ids in a refusal are kept as a list; the message escapes and joins them.
use obolus.Prelude.{
  ℕ, ◌-◌, ◌^◌, String, Bool, true, false, not, Option, none, some, List, [], ◌∷◌, filter,
  filter_option, map, is_empty, is_some, leb, ◌==◌, trim, str_eq, if◌then◌else◌,
}
use obolus.Prelude.Results.{Result, ok, err, ◌>>=◌, ◌>>◌}
use obolus.Amount.{parse_u128}
use obolus.Json.{Value}
use obolus.Backends.{Backend, ModelRates}
use obolus.Backends.Rates.{Loose, RateDefect, parse_rates}

abbrev pub pricing_var : String
pricing_var = "OBOLUS_PRICING"

abbrev pub upstream_cost_var : String
upstream_cost_var = "OBOLUS_UPSTREAM_COST"

abbrev pub margin_bps_var : String
margin_bps_var = "OBOLUS_MARGIN_BPS"

pub data PricingChoice : Type 0 where
  static_choice token_choice : PricingChoice
  cost_plus_choice : (margin_bps : ℕ) → (upstream_cost : Option ℕ) → PricingChoice

pub data PricingConfigError : Type 0 where
  unknown_rate bad_cost bad_margin : (value : String) → PricingConfigError
  missing_param : (var : String) → PricingConfigError
  zero_cost cost_plus_multi_chain inert_price token_multi_chain : PricingConfigError
  token_inert_price : PricingConfigError
  orphaned_params : (vars : List String) → PricingConfigError
  missing_backend_cost inert_backend_cost inert_rates unrated_backends :
      (ids : List String) → PricingConfigError

-- `parse` at a `u32` and at a `u64`: that of a `u128` with a lower bound.
abbrev pub parse_up_to : (bound : ℕ) → String → Option ℕ
parse_up_to bound raw = filter_option (λ n. leb n bound) (parse_u128 raw)

abbrev pub u32_max : ℕ
u32_max = 2 ^ 32 - 1

abbrev pub orphaned : (get : String → Option String) → List String
orphaned get = filter (λ k. is_some (get k)) (upstream_cost_var ∷ margin_bps_var ∷ [])

abbrev pub unless_orphaned : List String → PricingChoice → Result PricingConfigError PricingChoice
unless_orphaned [] choice = ok choice
unless_orphaned (v ∷ vs) choice = err (orphaned_params (v ∷ vs))

-- A variable that would be silently ignored is refused.
abbrev pub refuse_set : Option String → PricingConfigError → Result PricingConfigError (Unit {0})
refuse_set none why = ok tt
refuse_set (some _) why = err why

abbrev pub or_bad_cost : (raw : String) → Option ℕ → Result PricingConfigError (Option ℕ)
or_bad_cost raw none = err (bad_cost raw)
or_bad_cost raw (some cost) = if cost == 0 then err zero_cost else ok (some cost)

abbrev pub read_cost : Option String → Result PricingConfigError (Option ℕ)
read_cost none = ok none
read_cost (some raw) = or_bad_cost raw (parse_u128 raw)

abbrev pub or_bad_margin : (raw : String) → Option ℕ → Result PricingConfigError ℕ
or_bad_margin raw none = err (bad_margin raw)
or_bad_margin raw (some bps) = ok bps

abbrev pub read_margin : Option String → Result PricingConfigError ℕ
read_margin none = err (missing_param margin_bps_var)
read_margin (some raw) = or_bad_margin raw (parse_up_to u32_max raw)

module _ (get : String → Option String) where
  abbrev pub choose_token : Result PricingConfigError PricingChoice
  choose_token =
      refuse_set (get "OBOLUS_ACCEPTS") token_multi_chain
      >> (refuse_set (get "OBOLUS_PRICE") token_inert_price
          >> unless_orphaned (orphaned get) token_choice)

  abbrev pub choose_cost_plus : Result PricingConfigError PricingChoice
  choose_cost_plus =
      refuse_set (get "OBOLUS_ACCEPTS") cost_plus_multi_chain
      >> (refuse_set (get "OBOLUS_PRICE") inert_price
          >> (read_cost (get upstream_cost_var) >>= λ upstream_cost.
              read_margin (get margin_bps_var) >>= λ margin_bps.
              ok (cost_plus_choice margin_bps upstream_cost)))

  abbrev pub choose : Option String → Result PricingConfigError PricingChoice
  choose none = unless_orphaned (orphaned get) static_choice
  choose (some raw) =
      if str_eq (trim raw) "static"
      then unless_orphaned (orphaned get) static_choice
      else if str_eq (trim raw) "token"
      then choose_token
      else if str_eq (trim raw) "cost-plus"
      then choose_cost_plus
      else err (unknown_rate raw)

  unfoldable pub select_pricing : Result PricingConfigError PricingChoice
  select_pricing = choose (get pricing_var)

abbrev pub named_backends : List Backend → (select : Backend → Bool) → List String
named_backends backends select = map (λ b. b.id) (filter select backends)

abbrev pub unless_named :
    (why : List String → PricingConfigError)
    → (ids : List String) → Result PricingConfigError (Unit {0})
unless_named why [] = ok tt
unless_named why (i ∷ ids) = err (why (i ∷ ids))

unfoldable pub require_backend_costs :
    List Backend → PricingChoice → Result PricingConfigError (Unit {0})
require_backend_costs backends (cost_plus_choice margin_bps upstream_cost) =
    unless_named missing_backend_cost (named_backends backends (λ b. not (is_some b.cost)))
require_backend_costs backends _ =
    unless_named inert_backend_cost (named_backends backends (λ b. is_some b.cost))

abbrev pub has_rates : ModelRates → Bool
has_rates [] = false
has_rates (_ ∷ _) = true

unfoldable pub require_backend_rates :
    List Backend → PricingChoice → Result PricingConfigError (Unit {0})
require_backend_rates backends token_choice =
    unless_named unrated_backends (named_backends backends (λ b. not (has_rates b.rates)))
require_backend_rates backends _ =
    unless_named inert_rates (named_backends backends (λ b. has_rates b.rates))

abbrev pub model_rates_var : String
model_rates_var = "OBOLUS_MODEL_RATES"

pub data ModelRatesConfigError : Type 0 where
  alongside_backends_file empty_rates not_unicode : ModelRatesConfigError
  bad_rates : RateDefect → ModelRatesConfigError

-- What `std::env::var` gives.
pub data EnvVar : Type 0 where
  not_present opaque : EnvVar
  set : String → EnvVar

-- `.ok()` and `.is_ok()`.
abbrev pub ok_var : EnvVar → Option String
ok_var (set value) = some value
ok_var _ = none

abbrev pub or_bad_rates :
    Result RateDefect ModelRates → Result ModelRatesConfigError (Option ModelRates)
or_bad_rates (ok rates) = ok (some rates)
or_bad_rates (err defect) = err (bad_rates defect)

module _ (from_str : String → Result RateDefect (Loose (Loose Value))) where
  -- `parse_rates_json`: the loose reading, then the rules.
  unfoldable pub parse_rates_json : String → (served : List String) → Result RateDefect ModelRates
  parse_rates_json raw served = from_str raw >>= λ loose. parse_rates loose served

  abbrev pub read_rates :
      (file : Option String) → EnvVar → Result ModelRatesConfigError (Option ModelRates)
  read_rates file not_present = ok none
  read_rates file opaque = err not_unicode
  read_rates (some _) (set raw) = err alongside_backends_file
  read_rates none (set raw) =
      if is_empty (trim raw) then err empty_rates else or_bad_rates (parse_rates_json raw [])

  unfoldable pub select_model_rates :
      (get : String → EnvVar) → Result ModelRatesConfigError (Option ModelRates)
  unfolding parse_rates_json
  select_model_rates get = read_rates (ok_var (get "OBOLUS_BACKENDS_FILE")) (get model_rates_var)
