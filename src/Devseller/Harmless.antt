-- ===== src/Devseller/Harmless.antt =====
-- What a development seller that starts cannot do, for `main` of devseller/src/main.rs.
use obolus.Prelude.{
  ◌≡◌, ◌∙◌, refl, ap, subst, String, Bool, true, false, none, some, List, All, unwrap_or,
}
use obolus.Prelude.Results.{ok, Ensures, holds, Ensures-bind, Ensures-eq-ok, >>=-eq-ok}
use obolus.Payment.{PaymentRequirements}
use obolus.Backends.{ollama, single}
use obolus.Gateway.{new}
use obolus.Gateway.Offers.{IsServable, IsUnique, new-options}
use obolus.Config.{resource_info}
use obolus.Config.Window.{select_max_output_tokens}
use obolus.Eip3009.{Crypto}
use obolus.Boot.{World, map_err, env}
use obolus.Boot.Offers.{map_err-eq-ok}
use obolus.Devseller.Modes.{from_env}
use obolus.Devseller.Sources.{
  modes_refused, output_cap_refused, gateway_refused, wants_help, or_bad_address, upstream_from,
  dev_env_or, refuse_retired, retired_vars, dev_shared_offer, dev_options,
}
use obolus.Devseller.Start.{DevBooted, guard, dev_seller, unless_help, dev_boot}
use obolus.Devseller.Guards.{IsGuarded, guard-IsGuarded}

module _ (crypto : Crypto) (world : World) where
  -- A seller that serves, whatever its settings.
  pub record IsHarmless (seller : DevBooted) : Type 0 where
    pub offers : List PaymentRequirements
    pub guarded : IsGuarded crypto world seller.dev seller.upstream_url offers
    pub offered : seller.access.gateway.requirements ≡ offers
    pub servable : All IsServable offers
    pub unique : IsUnique offers
    pub no_token_path : seller.access.token_path ≡ none
    pub url_kept : seller.upstream_url ≡ env world "OBOLUS_UPSTREAM_URL"

  dev_seller-IsHarmless : Ensures IsHarmless (dev_seller crypto world)
  unfolding dev_seller
  dev_seller-IsHarmless = Ensures-bind (dev_env_or world "OBOLUS_ADDR" "127.0.0.1:8404") λ raw e1.
      Ensures-bind (or_bad_address (world.parse_addr raw)) λ addr e2.
        Ensures-bind (map_err modes_refused (from_env (env world))) λ dev e3.
          Ensures-bind (map_err output_cap_refused (select_max_output_tokens (env world))) λ cap e4.
            Ensures-bind (refuse_retired world retired_vars) λ u e5.
              Ensures-bind (upstream_from (env world "OBOLUS_UPSTREAM_URL")) λ upstream e6.
                Ensures-bind (dev_shared_offer world addr) λ shared e7.
                  Ensures-bind (dev_options world (env world "OBOLUS_ACCEPTS") shared) λ rs e8.
                    Ensures-bind (guard crypto world addr dev (env world "OBOLUS_UPSTREAM_URL") rs)
                      λ armed e9.
                        Ensures-bind
                          (map_err gateway_refused (
                            new
                              (single "devseller" ollama
                                (unwrap_or (env world "OBOLUS_UPSTREAM_URL") "canned://devseller")
                                upstream)
                              (resource_info shared) armed))
                          λ gateway built.
                            let (guarded, same) =
                              Ensures-eq-ok (guard crypto world addr dev _ rs)
                                (guard-IsGuarded crypto world addr dev _ rs) e9 in
                            let (offered, servable, unique) =
                              new-options _ _ armed gateway
                                (map_err-eq-ok gateway_refused _ built) in
                            holds (record {
                              offers = rs;
                              guarded = guarded;
                              offered = offered ∙ same;
                              servable = subst (All IsServable) same servable;
                              unique = subst IsUnique same unique;
                              no_token_path = refl;
                              url_kept = refl;
                            })

  unless_help-eq-ok :
      (help : Bool) {seller : DevBooted}
      → unless_help crypto world help ≡ ok (some seller)
      → (help ≡ false) × (dev_seller crypto world ≡ ok seller)
  unless_help-eq-ok true e = cc
  unless_help-eq-ok false e =
      let (ready, built, same) = >>=-eq-ok (dev_seller crypto world) (λ s. ok (some s)) e in
      (refl, cc)

-- A development seller that starts had no arguments that ask for its usage, and no arming variable is
-- set. Each of its offers is on a network that is provably testnet and not the placeholder, names a
-- recipient that is not the placeholder, one that reads as an address if the network is an EVM chain,
-- and can be served, no two for one scheme and network; under `verify` each has a domain to check
-- signatures under. It has no token path, and it accepts payments without a look in front of a real
-- upstream only where the operator acknowledged that.
pub dev_boot-IsHarmless :
    (crypto : Crypto) (world : World) (args : List String) (seller : DevBooted)
    → dev_boot crypto world args ≡ ok (some seller)
    → IsHarmless crypto world seller × (wants_help args ≡ ok false)
unfolding dev_boot
dev_boot-IsHarmless crypto world args seller h =
    let (help, asked, reached) = >>=-eq-ok (wants_help args) (unless_help crypto world) h in
    let (no_help, ready) = unless_help-eq-ok crypto world help reached in
    (
      Ensures-eq-ok (dev_seller crypto world) (dev_seller-IsHarmless crypto world) ready,
      asked ∙ ap ok no_help,
    )
