-- ===== src/Boot/Ready.antt =====
-- What a gateway that starts holds, for `main` of obolus/src/main.rs.
use obolus.Prelude.{
  ℕ, ◌≤◌, ◌≡◌, ◌∙◌, arith, subst, sym, refl, String, Option, none, some, List, All,
}
use obolus.Prelude.Results.{ok, Ensures, holds, Ensures-bind, Ensures-eq-ok}
use obolus.Payment.{PaymentRequirements}
use obolus.Backends.{Backend}
use obolus.Gateway.{Gateway, new}
use obolus.Gateway.Offers.{IsServable, IsUnique, new-options}
use obolus.Boot.{World, map_err, env, env_or, env_u64, milliseconds, options_refused}
use obolus.Config.{resource_info, SharedOffer}
use obolus.Boot.Sources.{
  or_bad_addr, or_no_url, check_payment_window, facilitator_from, check_head_timeout, backends_from,
  options_from, shared_offer,
}
use obolus.Boot.Tokens.{token_path}
use obolus.Config.Pricing.{PricingChoice, static_choice, token_choice, cost_plus_choice}
use obolus.Config.Window.{PromoConfig}
use obolus.Pricing.{PriceDeterminer, static_price, cost_plus, token_price, promotional}
use obolus.Boot.Start.{
  gateway_at, requiring_rates, base_determiner, promoted, Booted, read_choices, check_backends, arm,
  boot,
}
use obolus.Boot.Offers.{map_err-eq-ok, AreSet, options_from-AreSet}
use obolus.Boot.Keys.{IsVerifierSet, token_path-IsVerifierSet}
use obolus.Boot.Parts.{
  new-backends, AgreesWith, AreChoices, read_choices-AreChoices, check_backends-agree, IsArmed,
  arm-IsArmed, facilitator_from-timeout, env_u64-IsSeconds, IsSeconds, IsSeconds-bounded,
}

-- The rate that a choice names, and the price that a quote at `now` comes to under a promotion.
abbrev pub IsRate : PricingChoice → PriceDeterminer → Type 0
IsRate static_choice rate = rate ≡ static_price
IsRate token_choice rate = rate ≡ token_price
IsRate (cost_plus_choice margin_bps cost) rate = rate ≡ cost_plus margin_bps

abbrev pub IsPrice : Option PromoConfig → (now : ℕ) → PricingChoice → PriceDeterminer → Type 0
IsPrice none now choice price = IsRate choice price
IsPrice (some p) now choice price =
    (rate : PriceDeterminer) × IsRate choice rate
    × (price ≡ promotional p.discount_bps p.start p.end rate now)

base_determiner-IsRate : (choice : PricingChoice) → IsRate choice (base_determiner choice)
base_determiner-IsRate static_choice = refl
base_determiner-IsRate token_choice = refl
base_determiner-IsRate (cost_plus_choice margin_bps cost) = refl

promoted-IsPrice :
    (promo : Option PromoConfig) (now : ℕ) (choice : PricingChoice)
    → IsPrice promo now choice (promoted promo now (base_determiner choice))
promoted-IsPrice none now choice = base_determiner-IsRate choice
promoted-IsPrice (some p) now choice = (base_determiner choice, base_determiner-IsRate choice, refl)

requiring_rates-price : (c : PricingChoice) (g : Gateway) → (requiring_rates c g).price ≡ g.price
requiring_rates-price static_choice g = refl
requiring_rates-price token_choice g = refl
requiring_rates-price (cost_plus_choice margin cost) g = refl

gateway_at-IsPrice :
    (booted : Booted) (now : ℕ)
    → IsPrice booted.choices.promo now booted.choices.pricing (gateway_at booted now).price
unfolding gateway_at
gateway_at-IsPrice booted now =
    subst (IsPrice booted.choices.promo now booted.choices.pricing)
      (sym (requiring_rates-price booted.choices.pricing _))
      (promoted-IsPrice booted.choices.promo now booted.choices.pricing)

requiring_rates-max_output_tokens :
    (c : PricingChoice) (g : Gateway)
    → (requiring_rates c g).max_output_tokens ≡ g.max_output_tokens
requiring_rates-max_output_tokens static_choice g = refl
requiring_rates-max_output_tokens token_choice g = refl
requiring_rates-max_output_tokens (cost_plus_choice margin cost) g = refl

gateway_at-max_output_tokens :
    (booted : Booted) (now : ℕ)
    → (gateway_at booted now).max_output_tokens ≡ booted.choices.max_output_tokens
unfolding gateway_at
gateway_at-max_output_tokens booted now = requiring_rates-max_output_tokens booted.choices.pricing _

module _ (world : World) where
  -- A gateway that is ready to serve.
  pub record IsReady (booted : Booted) : Type 0 where
    pub choices : AreChoices world booted.choices
    pub agrees : AgreesWith booted.choices.pricing booted.gateway.backends
    pub shared : SharedOffer
    pub window : IsSeconds 300 (env world "OBOLUS_MAX_TIMEOUT_SECS") shared.max_timeout_seconds
    pub offers : List PaymentRequirements
    pub read : AreSet world (env world "OBOLUS_ACCEPTS") shared offers
    pub settled_in_time : shared.max_timeout_seconds ≤ booted.facilitator.timeout
    pub armed : IsArmed world offers booted.armed
    pub offered : booted.gateway.requirements ≡ offers
    pub servable : All IsServable offers
    pub unique : IsUnique offers
    pub verifier : IsVerifierSet world booted.verifier
    pub priced :
        (now : ℕ)
        → IsPrice booted.choices.promo now booted.choices.pricing (gateway_at booted now).price
    pub cap_enforced :
        (now : ℕ) → (gateway_at booted now).max_output_tokens ≡ booted.choices.max_output_tokens

  -- The parts that a start reads and checks, put together.
  parts-IsReady :
      (addr : String) (window : ℕ) (offers : List PaymentRequirements)
      (loaded backends : List Backend) (booted : Booted)
      → env_u64 world "OBOLUS_MAX_TIMEOUT_SECS" 300 ≡ ok window
      → (url : String) → facilitator_from world url window ≡ ok booted.facilitator
      → options_from world (env world "OBOLUS_ACCEPTS") (shared_offer world addr window) ≡ ok offers
      → read_choices world ≡ ok booted.choices
      → check_backends world booted.choices.pricing loaded ≡ ok backends
      → arm world offers ≡ ok booted.armed
      → new backends (resource_info (shared_offer world addr window)) booted.armed
        ≡ ok booted.gateway
      → token_path world ≡ ok booted.verifier
      → IsReady booted
  parts-IsReady addr window offers loaded backends booted waits url delegated read chosen checked
        armed built checked_by =
      let (offered, servable, unique) = new-options backends _ booted.armed booted.gateway built in
      let guard = Ensures-eq-ok (arm world offers) (arm-IsArmed world offers) armed in
      let seconds =
        Ensures-eq-ok (env_u64 world "OBOLUS_MAX_TIMEOUT_SECS" 300)
          (env_u64-IsSeconds world "OBOLUS_MAX_TIMEOUT_SECS" 300) waits in
      let bounded =
        IsSeconds-bounded 300 (env world "OBOLUS_MAX_TIMEOUT_SECS") (omega arith) seconds in
      record {
        choices = Ensures-eq-ok (read_choices world) (read_choices-AreChoices world) chosen;
        agrees =
            subst (AgreesWith booted.choices.pricing)
              (sym (new-backends backends _ booted.armed booted.gateway built))
              (Ensures-eq-ok (check_backends world booted.choices.pricing loaded)
                (check_backends-agree world booted.choices.pricing loaded) checked);
        shared = shared_offer world addr window;
        offers = offers;
        window = seconds;
        read = Ensures-eq-ok _ (options_from-AreSet world _ _) read;
        settled_in_time =
            Ensures-eq-ok (facilitator_from world url window)
              (facilitator_from-timeout world url window bounded) delegated;
        armed = guard;
        offered = offered ∙ guard.unchanged;
        servable = subst (All IsServable) guard.unchanged servable;
        unique = subst IsUnique guard.unchanged unique;
        verifier = Ensures-eq-ok (token_path world) (token_path-IsVerifierSet world) checked_by;
        priced = gateway_at-IsPrice booted;
        cap_enforced = gateway_at-max_output_tokens booted;
      }

  boot-Ensures : Ensures IsReady (boot world)
  unfolding boot
  boot-Ensures =
      Ensures-bind (or_bad_addr (world.parse_addr (env_or world "OBOLUS_ADDR" "127.0.0.1:8403")))
        λ addr e1. Ensures-bind (or_no_url (env world "OBOLUS_FACILITATOR_URL")) λ url e2.
          Ensures-bind (env_u64 world "OBOLUS_MAX_TIMEOUT_SECS" 300) λ window e3.
            Ensures-bind (check_payment_window window) λ u e4.
              Ensures-bind (facilitator_from world url window) λ facilitator e5.
                Ensures-bind (env_u64 world "OBOLUS_UPSTREAM_HEAD_TIMEOUT_SECS" 600) λ head e6.
                  Ensures-bind (check_head_timeout head) λ w e7.
                    Ensures-bind
                      (backends_from world (env world "OBOLUS_BACKENDS_FILE") (milliseconds head))
                      λ loaded e8.
                        Ensures-bind
                          (options_from world (env world "OBOLUS_ACCEPTS")
                            (shared_offer world addr window))
                          λ options e9. Ensures-bind (read_choices world) λ choices chosen.
                            Ensures-bind (check_backends world choices.pricing loaded)
                              λ backends checked. Ensures-bind (arm world options) λ armed guarded.
                                Ensures-bind
                                  (map_err options_refused (
                                    new backends (resource_info (shared_offer world addr window))
                                      armed))
                                  λ gateway built. Ensures-bind (token_path world) λ verifier e10.
                                    holds (
                                      parts-IsReady addr window options loaded backends _ e3 url e5
                                        e9 chosen checked guarded
                                        (map_err-eq-ok options_refused _ built) e10)

-- A gateway that starts quotes by the rate and the promotion that its settings say, and enforces the output
-- cap that they say, 4096 if none; its backends declare what the rate reads and nothing that it would
-- ignore. It offers the options that are set: one for each entry of OBOLUS_ACCEPTS in their order,
-- else the one of the single-chain variables, or their defaults where they are not set; field by field
-- as they are written, under the window that is set, 300 seconds if none. Each names a network, an
-- asset and a recipient that are not blank and an amount that reads as a `u128`, can be served, and is
-- on a network that is provably testnet or that the operator named; no two are for one scheme and
-- network. A token path holds the keys of the files that the operator names, and checks tokens for the
-- issuer and the audience that are set. The facilitator has at least the window of an option to settle.
pub boot-IsReady : (world : World) (booted : Booted) → boot world ≡ ok booted → IsReady world booted
boot-IsReady world booted h = Ensures-eq-ok (boot world) (boot-Ensures world) h
