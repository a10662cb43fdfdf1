-- ===== src/Config/Tests.antt =====
-- Concrete settings.
use obolus.Prelude.{
  ◌≤◌, ◌<◌, ◌≡◌, ◌≢◌, ◌⊎◌, ◌↔◌, refl, String, true, false, Option, none, some, List, [], ◌∷◌, all,
  codes, trim, is_some, is_ascii_digit, str_eq, if◌then◌else◌,
}
use obolus.Prelude.Results.{Result, ok, err}
use obolus.Amount.{parse_u128}
use obolus.Json.{Fields, string, end, field}
use obolus.Payment.{PaymentRequirements}
use obolus.Pricing.{u64_max}
use obolus.Gateway.{default_max_output_tokens}
use obolus.Fixtures.{small_backend}
use obolus.Config.{
  AcceptEntry, SharedOffer, exact_option, validated_option, parse_accepts, missing_token_domain,
  superseded_single_chain_vars, parse_extra, empty_extra,
}
use obolus.Config.Pricing.{
  static_choice, cost_plus_choice, select_pricing, require_backend_costs, inert_backend_cost,
  orphaned_params,
}
use obolus.Config.Window.{
  PromoConfig, select_promo, select_max_output_tokens, select_telemetry, max_output_tokens_var, off,
  already_ended,
}
use obolus.Config.Options.{
  IsOptionFor, IsUsable, AreEntryOptions, validated_option-iff_IsUsable,
  parse_accepts-AreEntryOptions,
}
use obolus.Config.Choices.{IsChosen, select_pricing-IsChosen}
use obolus.Config.Bounds.{IsSelected, select_promo-IsSelected, select_max_output_tokens-bounds}

abbrev shared : SharedOffer
shared = record {
  resource = "http://localhost";
  description = "One request";
  max_timeout_seconds = 60;
}

abbrev domain : Fields
domain = field "name" (string "USD Coin") (field "version" (string "2") end)

abbrev entry : AcceptEntry
entry = record {
  network = "eip155:84532";
  asset = "0xASSET";
  pay_to = "0xPAYEE";
  amount = some "1000";
  extra = some domain;
  max_amount_required = false;
}

abbrev option : PaymentRequirements
option = exact_option "eip155:84532" "0xASSET" "0xPAYEE" "1000" (some domain) shared

-- An EVM network without the token's domain.
no_domain :
    validated_option "eip155:84532" "0xASSET" "0xPAYEE" "1000" none shared
    ≡ err (missing_token_domain "name")
unfolding validated_option obolus.Config.check_domain trim parse_u128
    obolus.Payment.Transfer.unsupported_transfer obolus.Amount.validate_atomic_amount
no_domain = refl

validated_option-iff_IsUsable_example :
    (validated_option "eip155:84532" "0xASSET" "0xPAYEE" "1000" (some domain) shared ≡ ok option)
    ↔ (IsOptionFor "eip155:84532" "0xASSET" "0xPAYEE" "1000" (some domain) shared option
        × IsUsable "eip155:84532" "0xASSET" "0xPAYEE" "1000" (some domain) option)
validated_option-iff_IsUsable_example =
    validated_option-iff_IsUsable "eip155:84532" "0xASSET" "0xPAYEE" "1000" (some domain) shared
      option

abbrev read_entries : String → Result String (List AcceptEntry)
read_entries raw = ok (entry ∷ [])

accepted : parse_accepts read_entries "[]" shared ≡ ok (option ∷ [])
unfolding parse_accepts obolus.Config.entry_options validated_option obolus.Config.check_domain trim
    parse_u128 obolus.Payment.Transfer.unsupported_transfer obolus.Json.get_field
    obolus.Amount.digit obolus.Amount.validate_atomic_amount
accepted = refl

parse_accepts-AreEntryOptions_example :
    (entries : List AcceptEntry) × (read_entries "[]" ≡ ok entries)
    × (entries ≢ [])
    × AreEntryOptions shared entries (option ∷ [])
parse_accepts-AreEntryOptions_example =
    parse_accepts-AreEntryOptions shared read_entries "[]" accepted

abbrev cost_plus_vars : String → Option String
cost_plus_vars k =
    if str_eq k "OBOLUS_PRICING"
    then some " cost-plus"
    else if str_eq k "OBOLUS_MARGIN_BPS"
    then some "500"
    else if str_eq k "OBOLUS_UPSTREAM_COST"
    then some "400"
    else none

chosen : select_pricing cost_plus_vars ≡ ok (cost_plus_choice 500 (some 400))
unfolding select_pricing trim parse_u128 obolus.Amount.digit
chosen = refl

select_pricing-IsChosen_example : IsChosen cost_plus_vars (cost_plus_choice 500 (some 400))
select_pricing-IsChosen_example = select_pricing-IsChosen cost_plus_vars chosen

-- A margin that no rate would read.
orphan :
    select_pricing (λ k. if str_eq k "OBOLUS_MARGIN_BPS" then some "500" else none)
    ≡ err (orphaned_params ("OBOLUS_MARGIN_BPS" ∷ []))
unfolding select_pricing
orphan = refl

inert :
    require_backend_costs (small_backend ∷ []) static_choice
    ≡ err (inert_backend_cost ("small" ∷ []))
unfolding require_backend_costs
inert = refl

abbrev promo_settings : String → Option String
promo_settings k =
    if str_eq k "OBOLUS_PROMO_DISCOUNT_BPS"
    then some "2500"
    else if str_eq k "OBOLUS_PROMO_START"
    then some "100"
    else if str_eq k "OBOLUS_PROMO_END"
    then some "200"
    else none

abbrev promo : PromoConfig
promo = record { discount_bps = 2500; start = 100; end = 200 }

promo_read : select_promo promo_settings 150 ≡ ok (some promo)
unfolding select_promo parse_u128 obolus.Amount.digit
promo_read = refl

-- The window has closed at its end.
over : select_promo promo_settings 200 ≡ err (already_ended 200 200)
unfolding select_promo parse_u128 obolus.Amount.digit
over = refl

select_promo-IsSelected_example : IsSelected promo_settings 150 (some promo)
select_promo-IsSelected_example = select_promo-IsSelected promo_settings 150 promo_read

abbrev capped : String → Option String
capped k = if str_eq k "OBOLUS_MAX_OUTPUT_TOKENS" then some "512 " else none

cap : select_max_output_tokens capped ≡ ok 512
unfolding select_max_output_tokens trim parse_u128 obolus.Amount.digit
cap = refl

select_max_output_tokens-bounds_example :
    (0 < 512)
    × (512 ≤ u64_max)
    × (((capped max_output_tokens_var ≡ none) × (512 ≡ default_max_output_tokens))
        ⊎ ((raw : String) × (capped max_output_tokens_var ≡ some raw)
            × (all is_ascii_digit (codes (trim raw)) ≡ true)
            × (parse_u128 (trim raw) ≡ some 512)))
select_max_output_tokens-bounds_example = select_max_output_tokens-bounds capped cap

silent : select_telemetry (λ k. some "off") ≡ ok off
unfolding select_telemetry trim
silent = refl

blank_extra : parse_extra (λ s. ok end) (some " ") ≡ err empty_extra
unfolding parse_extra trim
blank_extra = refl

superseded : superseded_single_chain_vars (λ k. is_some (cost_plus_vars k)) ≡ []
unfolding superseded_single_chain_vars
superseded = refl
