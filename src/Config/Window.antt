-- ===== src/Config/Window.antt =====
-- The promotion, the telemetry sink and the output cap that an operator selects, for `select_promo`,
-- `select_telemetry` and `select_max_output_tokens` of obolus/src/config.rs.
use obolus.Prelude.{
  ℕ, String, not, Option, none, some, List, [], ◌∷◌, all, codes, filter, is_empty, is_some,
  is_ascii_digit, leb, ◌==◌, str_eq, trim, if◌then◌else◌,
}
use obolus.Prelude.Results.{Result, ok, err, ◌>>=◌}
use obolus.Pricing.{u64_max}
use obolus.Config.Pricing.{parse_up_to, u32_max}
use obolus.Gateway.{default_max_output_tokens}

abbrev pub promo_discount_bps_var : String
promo_discount_bps_var = "OBOLUS_PROMO_DISCOUNT_BPS"

abbrev pub promo_start_var : String
promo_start_var = "OBOLUS_PROMO_START"

abbrev pub promo_end_var : String
promo_end_var = "OBOLUS_PROMO_END"

abbrev pub promo_vars : List String
promo_vars = promo_discount_bps_var ∷ promo_start_var ∷ promo_end_var ∷ []

pub record PromoConfig : Type 0 where
  pub discount_bps : ℕ
  pub start : ℕ
  pub end : ℕ

pub data PromoConfigError : Type 0 where
  incomplete : (present : List String) → (missing : List String) → PromoConfigError
  bad_discount : (value : String) → PromoConfigError
  zero_discount : PromoConfigError
  discount_too_large : (value : ℕ) → PromoConfigError
  bad_timestamp : (var : String) → (value : String) → PromoConfigError
  empty_window : (start : ℕ) → (end : ℕ) → PromoConfigError
  already_ended : (end : ℕ) → (now : ℕ) → PromoConfigError

abbrev pub check_discount : (raw : String) → Option ℕ → Result PromoConfigError ℕ
check_discount raw none = err (bad_discount raw)
check_discount raw (some bps) =
    if bps == 0
    then err zero_discount
    else if leb 10000 bps
    then err (discount_too_large bps)
    else ok bps

abbrev pub or_bad_timestamp : (var : String) → (raw : String) → Option ℕ → Result PromoConfigError ℕ
or_bad_timestamp var raw none = err (bad_timestamp var raw)
or_bad_timestamp var raw (some t) = ok t

abbrev pub parse_ts : (var : String) → (raw : String) → Result PromoConfigError ℕ
parse_ts var raw = or_bad_timestamp var raw (parse_up_to u64_max raw)

abbrev pub check_window :
    (now_unix : ℕ) → PromoConfig → Result PromoConfigError (Option PromoConfig)
check_window now_unix promo =
    if leb promo.end promo.start
    then err (empty_window promo.start promo.end)
    else if leb promo.end now_unix
    then err (already_ended promo.end now_unix)
    else ok (some promo)

-- The three values, where all three are set.
abbrev pub read_promo :
    (now_unix : ℕ)
    → (discount : String) → (start : String) → (end : String)
    → Result PromoConfigError (Option PromoConfig)
read_promo now_unix discount start end =
    check_discount discount (parse_up_to u32_max discount) >>= λ discount_bps.
    parse_ts promo_start_var start >>= λ start. parse_ts promo_end_var end >>= λ end.
    check_window now_unix (record { discount_bps = discount_bps; start = start; end = end })

abbrev pub complete_promo :
    (now_unix : ℕ)
    → (discount : Option String) → (start : Option String) → (end : Option String)
    → (present : List String) → (missing : List String)
    → Result PromoConfigError (Option PromoConfig)
complete_promo now_unix (some discount) (some start) (some end) present missing =
    read_promo now_unix discount start end
complete_promo now_unix none none none present missing = ok none
complete_promo now_unix _ _ _ present missing = err (incomplete present missing)

module _ (get : String → Option String) where
  unfoldable pub select_promo : (now_unix : ℕ) → Result PromoConfigError (Option PromoConfig)
  select_promo now_unix =
      complete_promo now_unix (get promo_discount_bps_var) (get promo_start_var) (get promo_end_var)
        (filter (λ k. is_some (get k)) promo_vars) (filter (λ k. not (is_some (get k))) promo_vars)

abbrev pub telemetry_var : String
telemetry_var = "OBOLUS_TELEMETRY"

pub data TelemetryChoice : Type 0 where
  stdout off : TelemetryChoice

pub data TelemetryConfigError : Type 0 where
  unknown : (value : String) → TelemetryConfigError

abbrev pub sink_of : Option String → Result TelemetryConfigError TelemetryChoice
sink_of none = ok stdout
sink_of (some raw) =
    if str_eq (trim raw) "stdout"
    then ok stdout
    else if str_eq (trim raw) "off"
    then ok off
    else err (unknown raw)

unfoldable pub select_telemetry :
    (get : String → Option String) → Result TelemetryConfigError TelemetryChoice
select_telemetry get = sink_of (get telemetry_var)

abbrev pub max_output_tokens_var : String
max_output_tokens_var = "OBOLUS_MAX_OUTPUT_TOKENS"

pub data OutputCapConfigError : Type 0 where
  empty_cap zero_cap : OutputCapConfigError
  not_a_number : (value : String) → OutputCapConfigError

abbrev pub nonzero_cap : (raw : String) → Option ℕ → Result OutputCapConfigError ℕ
nonzero_cap raw none = err (not_a_number raw)
nonzero_cap raw (some n) = if n == 0 then err zero_cap else ok n

abbrev pub read_cap : Option String → Result OutputCapConfigError ℕ
read_cap none = ok default_max_output_tokens
read_cap (some raw) =
    if is_empty (trim raw)
    then err empty_cap
    else if not (all is_ascii_digit (codes (trim raw)))
    then err (not_a_number raw)
    else nonzero_cap raw (parse_up_to u64_max (trim raw))

unfoldable pub select_max_output_tokens :
    (get : String → Option String) → Result OutputCapConfigError ℕ
select_max_output_tokens get = read_cap (get max_output_tokens_var)
