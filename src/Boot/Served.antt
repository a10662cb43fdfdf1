-- ===== src/Boot/Served.antt =====
-- From the settings to a request that is served: `main` of obolus/src/main.rs with `serve` of
-- obolus/src/gateway.rs.
use obolus.Prelude.{
  ℕ, ◌≡◌, ◌∙◌, ◌⊎◌, inl, inr, refl, sym, subst, String, Bool, true, Option, none, some, List, [],
  ◌∷◌, All, Any, find, map, arith, Bool-cases,
}
use obolus.Prelude.Results.{ok}
use obolus.Payment.{PaymentRequirements, PaymentPayload, SettlementReceipt}
use obolus.Backends.{Backend}
use obolus.Request.{RequestShape, parse}
use obolus.Access.{Header, bearer_token}
use obolus.Access.KeySet.{PublicKeyTokenVerifier, Validation}
use obolus.Access.KeySet.Rotation.{verify_token-honours}
use obolus.Arming.{parse_arming}
use obolus.Arming.Guard.{MayAdvertise}
use obolus.Gateway.{Gateway, priced, repriced, accepted_for}
use obolus.Gateway.Steps.{Env, Run, run}
use obolus.Gateway.Paid.{Outside}
use obolus.Gateway.Serve.{Arrived, honoured, serve}
use obolus.Gateway.Protocol.{serves_work, revenue}
use obolus.Gateway.Charges.{IsBought, serve-work_is_paid}
use obolus.Config.Pricing.{PricingChoice, static_choice, token_choice, cost_plus_choice}
use obolus.Access.KeyFiles.{TokenKeyEntry}
use obolus.Boot.{World, env}
use obolus.Boot.Keys.{AreNamed, IsValidation, IsVerifierSet, HonouredBy, any-HonouredBy}
use obolus.Boot.Start.{
  Booted, read_arming, gateway_at, requiring_rates, verdict_of, access_at, boot,
}
use obolus.Boot.Ready.{IsReady, boot-IsReady}

find-All :
    (P : PaymentRequirements → Type 0) (p : PaymentRequirements → Bool)
    (rs : List PaymentRequirements) {r : PaymentRequirements}
    → All P rs
    → find p rs ≡ some r
    → P r
find-All P p [] h e = cc
find-All P p (x ∷ rs) {r} h e = elim (Bool-cases (p x)) [
  | inl yes_x ↦ let same : x ≡ r = ground arith in subst P same h.0
  | inr no_x ↦ find-All P p rs h.1 (ground arith)
]

priced-All :
    (P : PaymentRequirements → Type 0) (g : Gateway) (request : RequestShape) (backend : Backend)
    (rs : List PaymentRequirements)
    → ((r : PaymentRequirements) → P r → P (repriced g request backend r))
    → All P rs
    → All P (map (repriced g request backend) rs)
priced-All P g request backend [] keep h = tt
priced-All P g request backend (r ∷ rs) keep h =
    (keep r h.0, priced-All P g request backend rs keep h.1)

requiring_rates-requirements :
    (c : PricingChoice) (g : Gateway) → (requiring_rates c g).requirements ≡ g.requirements
requiring_rates-requirements static_choice g = refl
requiring_rates-requirements token_choice g = refl
requiring_rates-requirements (cost_plus_choice margin cost) g = refl

gateway_at-requirements :
    (booted : Booted) (now : ℕ) → (gateway_at booted now).requirements ≡ booted.gateway.requirements
unfolding gateway_at
gateway_at-requirements booted now = requiring_rates-requirements booted.choices.pricing _

module _ (world : World) (booted : Booted) where
  -- A token of the request is honoured by a key of a file that the operator names, for the issuer
  -- and the audience that are set.
  pub record IsHonoured (authorization : Header) : Type 0 where
    pub token : String
    pub carried : bearer_token authorization ≡ some token
    pub entries : List TokenKeyEntry
    pub named :
        AreNamed world
          (env world "OBOLUS_TOKEN_KEYS")
          (env world "OBOLUS_TOKEN_PUBKEY_FILE")
          entries
    pub issuer : String
    pub issuer_set : env world "OBOLUS_TOKEN_ISSUER" ≡ some issuer
    pub validation : Validation
    pub checks : IsValidation issuer (env world "OBOLUS_TOKEN_AUDIENCE") validation
    pub honoured_by : Any (HonouredBy world validation token) entries

  -- A network that is provably testnet or that the operator's variable names.
  abbrev pub IsAllowed : (network : String) → Type 0
  IsAllowed network =
      (raw : Option String) × (names : List String) × (read_arming
          (world.var "OBOLUS_ALLOW_MAINNET")
        ≡ ok raw)
      × (parse_arming raw ≡ ok names)
      × MayAdvertise names network

  honoured-IsHonoured :
      (verifier : Option PublicKeyTokenVerifier) (authorization : Header) (token : Option String)
      → IsVerifierSet world verifier
      → bearer_token authorization ≡ token
      → honoured (verdict_of world verifier) token ≡ true
      → IsHonoured authorization
  honoured-IsHonoured none a token set t h = cc
  honoured-IsHonoured (some v) a none set t h = cc
  honoured-IsHonoured (some v) a (some token) set t h = record {
    token = token;
    carried = t;
    entries = set.entries;
    named = set.named;
    issuer = set.issuer;
    issuer_set = set.issuer_set;
    validation = v.validation;
    checks = set.checks;
    honoured_by =
        any-HonouredBy world v.validation token set.entries v.keys set.keys
          (sym (verify_token-honours world.jwt v token) ∙ h);
  }

  offers-IsAllowed :
      IsReady world booted
      → (request : RequestShape) (backend : Backend) (now : ℕ)
      → All (λ r. IsAllowed r.network) (priced (gateway_at booted now) request backend)
  unfolding priced
  offers-IsAllowed ready request backend now =
      priced-All (λ r. IsAllowed r.network) (gateway_at booted now) request backend _ (λ r a. a)
        (subst (All (λ r. IsAllowed r.network))
          (sym (gateway_at-requirements booted now ∙ ready.offered))
          (All-IsAllowed ready.offers ready.armed.advertised))
    where
      All-IsAllowed :
          (rs : List PaymentRequirements)
          → All (λ r. MayAdvertise ready.armed.names r.network) rs
          → All (λ r. IsAllowed r.network) rs
      All-IsAllowed [] h = tt
      All-IsAllowed (r ∷ rs) h = (
        (ready.armed.raw, ready.armed.names, ready.armed.present, ready.armed.named, h.0),
        All-IsAllowed rs h.1,
      )

  -- A payment for an offer on an allowed network, verified and settled with success, and recorded
  -- as that offer's amount.
  abbrev pub IsPaidOnAllowed : Env → Run → Type 0
  IsPaidOnAllowed env ended =
      (payment : PaymentPayload) × (r : PaymentRequirements) × (receipt : SettlementReceipt)
      × IsAllowed r.network
      × ((env.verify payment r).0 ≡ ok tt)
      × (env.settle payment r ≡ ok receipt)
      × (receipt.success ≡ true)
      × (revenue ended ≡ some r.amount)

module _ (o : Outside) (world : World) (booted : Booted) (now : ℕ) (arrived : Arrived)
    (env : Env) where
  IsBought-IsPaidOnAllowed :
      (request : RequestShape) (ended : Run)
      → IsReady world booted
      → IsBought o (access_at world booted now) arrived env request ended
      → IsPaidOnAllowed world booted env ended
  unfolding access_at accepted_for
  IsBought-IsPaidOnAllowed request ended ready
        (backend, p, r, receipt, routed, found, valid, answer, success, amount) =
      (
        p,
        r,
        receipt,
        find-All (λ offer. IsAllowed world booted offer.network) _ _
            (offers-IsAllowed world booted ready request backend now) found,
        valid,
        answer,
        success,
        amount,
      )

  -- No gateway that starts gives work away: where a client of it receives an upstream's successful
  -- answer, a token of the request was honoured by the key of a file that the operator names, for the
  -- issuer and the audience that are set, or a payment was verified and settled with a receipt of
  -- success for an offer on a network that is provably testnet or that the operator's variable names,
  -- and the event holds the amount of that offer.
  pub boot-work_is_paid :
      (patience : ℕ)
      → boot world ≡ ok booted
      → serves_work (run env patience (serve o (access_at world booted now) arrived)).response
        ≡ true
      → IsHonoured world booted arrived.authorization
        ⊎ IsPaidOnAllowed world booted env
            (run env patience (serve o (access_at world booted now) arrived))
  unfolding access_at
  boot-work_is_paid patience started work =
      elim (serve-work_is_paid o (access_at world booted now) arrived env patience work) [
        | inl honest ↦ inl (
            honoured-IsHonoured world booted booted.verifier arrived.authorization _
              (boot-IsReady world booted started).verifier refl honest)
        | inr bought ↦ inr (
            IsBought-IsPaidOnAllowed (parse (o.read arrived.body))
              (run env patience (serve o (access_at world booted now) arrived))
              (boot-IsReady world booted started) bought)
      ]
