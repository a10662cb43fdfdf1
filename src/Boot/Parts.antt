-- ===== src/Boot/Parts.antt =====
-- What the parts of a start that `main` of obolus/src/main.rs checks hold, each on its own.
use obolus.Prelude.{
  ◌⊎◌, inl, inr, refl, trim, ℕ, ◌≤◌, ◌<◌, ◌≡◌, ap, arith, String, Option, none, some, List, All,
  is_some,
}
use obolus.Prelude.Results.{ok, Ensures, holds, Ensures-of, Ensures-bind, >>-eq-ok, ok-injective}
use obolus.Payment.{PaymentRequirements, ResourceInfo}
use obolus.Backends.{Backend}
use obolus.Amount.{parse_u128}
use obolus.Pricing.{u64_max}
use obolus.Facilitator.Delegated.{new_facilitator}
use obolus.Arming.{ArmedRequirements, parse_arming, check_arming}
use obolus.Arming.Guard.{MayAdvertise, check_arming-guards}
use obolus.Gateway.{Gateway, new, check_some, check_unique, check_options}
use obolus.Config.Pricing.{
  parse_up_to, PricingChoice, select_pricing, require_backend_costs, require_backend_rates,
  has_rates,
}
use obolus.Config.Window.{select_promo, select_telemetry, select_max_output_tokens}
use obolus.Config.Choices.{
  is_cost_plus, is_token, IsChosen, select_pricing-IsChosen, require_backend_costs-iff_agree,
  require_backend_rates-iff_agree, parse_up_to-eq-some,
}
use obolus.Config.Bounds.{IsSelected, select_promo-IsSelected, select_max_output_tokens-bounds}
use obolus.Boot.{
  World, map_err, env, env_u64, telemetry_refused, pricing_refused, arming_refused,
  arming_value_refused, seconds_or, or_not_seconds, facilitator_refused,
}
use obolus.Boot.Sources.{facilitator_from}
use obolus.Boot.Start.{Choices, with_cost, read_arming, read_choices, check_backends, arm}
use obolus.Boot.Offers.{map_err-eq-ok}

pub new-backends :
    (backends : List Backend) (resource : ResourceInfo) (armed : ArmedRequirements) (g : Gateway)
    → new backends resource armed ≡ ok g
    → g.backends ≡ backends
unfolding new
new-backends backends resource armed g h =
    let (nonempty, h1) = >>-eq-ok (check_some armed.requirements) _ h in
    let (unique, h2) = >>-eq-ok (check_unique armed.requirements) _ h1 in
    let (servable, built) = >>-eq-ok (check_options armed.requirements) _ h2 in ground arith

-- Whether the backends declare what the rate reads, and nothing that it would ignore.
abbrev pub AgreesWith : PricingChoice → List Backend → Type 0
AgreesWith pricing backends =
    All (λ b. is_some b.cost ≡ is_cost_plus pricing) backends
    × All (λ b. has_rates b.rates ≡ is_token pricing) backends

or_not_seconds-eq-ok :
    (key : String) (found : Option ℕ) {n : ℕ} → or_not_seconds key found ≡ ok n → found ≡ some n
or_not_seconds-eq-ok key none h = cc
or_not_seconds-eq-ok key (some n) h = ap some (ok-injective h)

-- Seconds that a variable is set to, or their default.
abbrev pub IsSeconds : (default : ℕ) → Option String → ℕ → Type 0
IsSeconds default none n = n ≡ default
IsSeconds default (some raw) n = (parse_u128 raw ≡ some n) × (n ≤ u64_max)

seconds_or-IsSeconds :
    (key : String) (default : ℕ) (value : Option String)
    → Ensures (IsSeconds default value) (seconds_or key default value)
seconds_or-IsSeconds key default none = holds refl
seconds_or-IsSeconds key default (some raw) =
    Ensures-of (or_not_seconds key (parse_up_to u64_max raw))
      λ n read. parse_up_to-eq-some u64_max raw (or_not_seconds-eq-ok key _ read)

pub IsSeconds-bounded :
    (default : ℕ) (value : Option String) {n : ℕ}
    → default ≤ u64_max
    → IsSeconds default value n
    → n ≤ u64_max
IsSeconds-bounded default none small h = omega arith
IsSeconds-bounded default (some raw) small h = h.1

module _ (world : World) where
  pub record AreChoices (choices : Choices) : Type 0 where
    pub pricing : IsChosen (env world) choices.pricing
    pub promo : IsSelected (env world) world.now_unix choices.promo
    pub cap_positive : 0 < choices.max_output_tokens
    pub cap_bounded : choices.max_output_tokens ≤ u64_max
    pub cap_read :
        ((env world "OBOLUS_MAX_OUTPUT_TOKENS" ≡ none) × (choices.max_output_tokens ≡ 4096))
        ⊎ ((raw : String) × (env world "OBOLUS_MAX_OUTPUT_TOKENS" ≡ some raw)
            × (parse_u128 (trim raw) ≡ some choices.max_output_tokens))

  pub read_choices-AreChoices : Ensures AreChoices (read_choices world)
  unfolding read_choices
  read_choices-AreChoices = Ensures-bind (map_err _ (select_pricing (env world))) λ pricing p.
      Ensures-bind (map_err _ (select_promo (env world) world.now_unix)) λ promo q.
        Ensures-bind (map_err telemetry_refused (select_telemetry (env world))) λ telemetry t.
          Ensures-bind (map_err _ (select_max_output_tokens (env world))) λ cap c.
            let (positive, bounded, read) =
              select_max_output_tokens-bounds (env world) (map_err-eq-ok _ _ c) in
            holds (record {
              pricing = select_pricing-IsChosen (env world) (map_err-eq-ok _ _ p);
              promo = select_promo-IsSelected (env world) world.now_unix (map_err-eq-ok _ _ q);
              cap_positive = positive;
              cap_bounded = bounded;
              cap_read = elim read [
                | inl default ↦ inl default
                | inr (raw, set, digits, parsed) ↦ inr (raw, set, parsed)
              ];
            })

  pub check_backends-agree :
      (pricing : PricingChoice) (backends : List Backend)
      → Ensures (AgreesWith pricing) (check_backends world pricing backends)
  unfolding check_backends
  check_backends-agree pricing backends =
      Ensures-bind
        (map_err pricing_refused (require_backend_costs (with_cost pricing backends) pricing))
        λ u costs.
          Ensures-bind
            (map_err pricing_refused (require_backend_rates (with_cost pricing backends) pricing))
            λ w rates. holds (
              (require_backend_costs-iff_agree _ pricing).0 (map_err-eq-ok pricing_refused _ costs),
              (require_backend_rates-iff_agree _ pricing).0 (map_err-eq-ok pricing_refused _ rates),
            )

  -- What the operator armed, as the variable names it.
  pub record IsArmed (requirements : List PaymentRequirements) (armed : ArmedRequirements)
      : Type 0 where
    pub raw : Option String
    pub names : List String
    pub present : read_arming (world.var "OBOLUS_ALLOW_MAINNET") ≡ ok raw
    pub named : parse_arming raw ≡ ok names
    pub advertised : All (λ r. MayAdvertise names r.network) requirements
    pub unchanged : armed.requirements ≡ requirements

  pub arm-IsArmed :
      (requirements : List PaymentRequirements)
      → Ensures (IsArmed requirements) (arm world requirements)
  unfolding arm
  arm-IsArmed requirements =
      Ensures-bind (read_arming (world.var "OBOLUS_ALLOW_MAINNET")) λ raw present.
        Ensures-bind (map_err arming_value_refused (parse_arming raw)) λ names named.
          Ensures-of (map_err arming_refused (check_arming requirements names)) λ armed passed.
            let (unchanged, advertised, unproven, used) =
              check_arming-guards requirements names armed
                (map_err-eq-ok arming_refused _ passed) in
            record {
              raw = raw;
              names = names;
              present = present;
              named = map_err-eq-ok arming_value_refused _ named;
              advertised = advertised;
              unchanged = unchanged;
            }

  pub facilitator_from-timeout :
      (url : String) (window : ℕ)
      → window ≤ u64_max
      → Ensures (λ f. window ≤ f.timeout) (facilitator_from world url window)
  facilitator_from-timeout url window small =
      Ensures-bind (map_err facilitator_refused (new_facilitator url)) λ f e. holds (omega arith)

  pub env_u64-IsSeconds :
      (key : String) (default : ℕ)
      → Ensures (IsSeconds default (env world key)) (env_u64 world key default)
  env_u64-IsSeconds key default = seconds_or-IsSeconds key default (env world key)
