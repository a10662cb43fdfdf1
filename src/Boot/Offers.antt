-- ===== src/Boot/Offers.antt =====
-- The payment options that a gateway starts with, for `main` of obolus/src/main.rs.
use obolus.Prelude.{
  ◌≡◌, ◌≢◌, ◌⊎◌, inl, inr, refl, ap, sym, [], ◌∷◌, is_empty, trim, String, Option, none, some, List,
  is_some, arith, Bool-cases, unwrap_or,
}
use obolus.Prelude.Results.{Result, ok, err, Ensures, holds, Ensures-of, Ensures-bind, ok-injective}
use obolus.Json.{Fields}
use obolus.Payment.{PaymentRequirements}
use obolus.Arming.{placeholder_network}
use obolus.Boot.{World, map_err, env, env_or, extra_refused, single_chain_refused, accepts_refused}
use obolus.Config.{
  SharedOffer, AcceptEntry, validated_option, parse_accepts, parse_extra, or_not_an_object,
  extra_var, superseded_single_chain_vars,
}
use obolus.Config.Options.{
  IsOptionFor, IsUsable, AreEntryOptions, validated_option-iff_IsUsable,
  parse_accepts-AreEntryOptions,
}
use obolus.Boot.Sources.{options_from, single_chain, multi_chain, refuse_empty, refuse_superseded}

pub map_err-eq-ok :
    {E F A : Type 0} (why : E → F) (r : Result E A) {a : A} → map_err why r ≡ ok a → r ≡ ok a
map_err-eq-ok why (ok x) h = ap ok (ok-injective h)
map_err-eq-ok why (err e) h = cc

module _ (world : World) where
  -- What a variable is set to, or its default.
  abbrev pub IsSetOr : (key : String) → (default : String) → (got : String) → Type 0
  IsSetOr key default got = ((env world key ≡ none) × (got ≡ default)) ⊎ (env world key ≡ some got)

  -- What the variable of the `extra` reads as.
  abbrev pub IsExtraSet : Option String → Option Fields → Type 0
  IsExtraSet none extra = extra ≡ none
  IsExtraSet (some raw) extra =
      (fields : Fields) × (world.json_object raw ≡ ok fields) × (extra ≡ some fields)

  -- The option of the single-chain variables.
  pub record IsSingleChain (shared : SharedOffer) (r : PaymentRequirements) : Type 0 where
    pub network : String
    pub asset : String
    pub pay_to : String
    pub amount : String
    pub extra : Option Fields
    pub network_set : IsSetOr "OBOLUS_NETWORK" placeholder_network network
    pub asset_set : IsSetOr "OBOLUS_ASSET" "0xTEST-ASSET-ADDRESS-NOT-REAL" asset
    pub pay_to_set : IsSetOr "OBOLUS_PAY_TO" "0xTEST-PAY-TO-ADDRESS-NOT-REAL" pay_to
    pub amount_set : IsSetOr "OBOLUS_PRICE" "1000" amount
    pub extra_set : IsExtraSet (env world "OBOLUS_EXTRA") extra
    pub as_set : IsOptionFor network asset pay_to amount extra shared r
    pub usable : IsUsable network asset pay_to amount extra r

  -- The options that the settings say: by OBOLUS_ACCEPTS if it is set, else by the single-chain
  -- variables.
  abbrev pub AreSet : (accepts : Option String) → SharedOffer → List PaymentRequirements → Type 0
  AreSet none shared offers = (r : PaymentRequirements) × (offers ≡ r ∷ []) × IsSingleChain shared r
  AreSet (some raw) shared offers =
      (entries : List AcceptEntry) × (world.accept_entries raw ≡ ok entries)
      × (entries ≢ [])
      × AreEntryOptions shared entries offers

  unwrap_or-IsSetOr :
      (key default : String) (found : Option String)
      → env world key ≡ found
      → IsSetOr key default (unwrap_or found default)
  unwrap_or-IsSetOr key default none e = inl (e, refl)
  unwrap_or-IsSetOr key default (some value) e = inr e

  env_or-IsSetOr : (key default : String) → IsSetOr key default (env_or world key default)
  env_or-IsSetOr key default = unwrap_or-IsSetOr key default (env world key) refl

  or_not_an_object-eq-ok :
      (raw : String) (read : Result String Fields) {extra : Option Fields}
      → world.json_object raw ≡ read
      → or_not_an_object read ≡ ok extra
      → IsExtraSet (some raw) extra
  or_not_an_object-eq-ok raw (ok fields) r h = (fields, r, sym (ok-injective h))
  or_not_an_object-eq-ok raw (err message) r h = cc

  parse_extra-IsExtraSet :
      (value : Option String) {extra : Option Fields}
      → parse_extra world.json_object value ≡ ok extra
      → IsExtraSet value extra
  unfolding parse_extra
  parse_extra-IsExtraSet none h = sym (ok-injective h)
  parse_extra-IsExtraSet (some raw) h = elim (Bool-cases (is_empty (trim raw))) [
    | inl blank ↦ absurd (ground arith)
    | inr set ↦ or_not_an_object-eq-ok raw (world.json_object raw) refl (rw set at h)
  ]

  pub options_from-AreSet :
      (accepts : Option String) (shared : SharedOffer)
      → Ensures (AreSet accepts shared) (options_from world accepts shared)
  unfolding single_chain multi_chain
  options_from-AreSet none shared =
      Ensures-bind (map_err extra_refused (parse_extra world.json_object (env world extra_var)))
        λ extra e.
          Ensures-bind
            (map_err single_chain_refused (
              validated_option (env_or world "OBOLUS_NETWORK" placeholder_network)
                (env_or world "OBOLUS_ASSET" "0xTEST-ASSET-ADDRESS-NOT-REAL")
                (env_or world "OBOLUS_PAY_TO" "0xTEST-PAY-TO-ADDRESS-NOT-REAL")
                (env_or world "OBOLUS_PRICE" "1000") extra shared))
            λ option built.
              let (says, usable) =
                (validated_option-iff_IsUsable _ _ _ _ extra shared option).0
                  (map_err-eq-ok single_chain_refused _ built) in
              holds (
                option,
                refl,
                record {
                  network = env_or world "OBOLUS_NETWORK" placeholder_network;
                  asset = env_or world "OBOLUS_ASSET" "0xTEST-ASSET-ADDRESS-NOT-REAL";
                  pay_to = env_or world "OBOLUS_PAY_TO" "0xTEST-PAY-TO-ADDRESS-NOT-REAL";
                  amount = env_or world "OBOLUS_PRICE" "1000";
                  extra = extra;
                  network_set = env_or-IsSetOr "OBOLUS_NETWORK" placeholder_network;
                  asset_set = env_or-IsSetOr "OBOLUS_ASSET" "0xTEST-ASSET-ADDRESS-NOT-REAL";
                  pay_to_set = env_or-IsSetOr "OBOLUS_PAY_TO" "0xTEST-PAY-TO-ADDRESS-NOT-REAL";
                  amount_set = env_or-IsSetOr "OBOLUS_PRICE" "1000";
                  extra_set =
                      parse_extra-IsExtraSet (env world extra_var)
                        (map_err-eq-ok extra_refused _ e);
                  as_set = says;
                  usable = usable;
                },
              )
  options_from-AreSet (some raw) shared = Ensures-bind (refuse_empty "OBOLUS_ACCEPTS" raw) λ u e1.
      Ensures-bind (refuse_superseded (superseded_single_chain_vars (λ k. is_some (env world k))))
        λ w e2.
          Ensures-of (map_err accepts_refused (parse_accepts world.accept_entries raw shared))
            λ rs read.
              parse_accepts-AreEntryOptions shared world.accept_entries raw
                (map_err-eq-ok accepts_refused _ read)
