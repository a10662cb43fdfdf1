-- ===== src/Gateway/Offers.antt =====
-- What a gateway offers, for `Gateway::new`, `priced` and `accepted_for` of obolus/src/gateway.rs.
use obolus.Prelude.{
  ℕ, suc, subst, ◌<◌, ◌≤◌, String, ◌≡◌, inl, inr, refl, sym, ◌∙◌, Bool, true, false, ◌&&◌, not,
  Option, none, some, List, [], ◌∷◌, All, any, map, arith, eq_iff, str_eq, leb, Bool-cases,
  if◌then◌else◌,
}
use obolus.Prelude.Results.{Result, ok, err, >>-eq-ok}
use obolus.Amount.{u128_max, parse_u128}
use obolus.Amount.RoundTrip.{parse_u128-to_decimal}
use obolus.Payment.{ResourceInfo, PaymentRequirements, PaymentPayload, scheme_exact, is_accepted_by}
use obolus.Payment.Transfer.{TransferRefusal, unsupported_transfer}
use obolus.Payment.Matching.{is_accepted_by_unique}
use obolus.Backends.{Backend}
use obolus.Arming.{ArmedRequirements, check_arming}
use obolus.Arming.Guard.{MayAdvertise, check_arming-guards}
use obolus.Request.{RequestShape}
use obolus.Gateway.{
  GatewayError, Gateway, settle_reserve_secs, same_option, check_unique, check_transfer,
  check_option, check_options, check_some, new, repriced, priced,
}

-- An option that the gateway can serve and settle.
pub record IsServable (r : PaymentRequirements) : Type 0 where
  pub exact : r.scheme ≡ scheme_exact
  pub supported : unsupported_transfer r ≡ none
  pub window : settle_reserve_secs < r.max_timeout_seconds

-- No two options share a scheme and a network.
abbrev pub IsUnique : List PaymentRequirements → Type 0
IsUnique [] = Unit
IsUnique (r ∷ rs) = All (λ s. same_option r s ≡ false) rs × IsUnique rs

check_transfer-none :
    (refusal : Option TransferRefusal) (network : String)
    → check_transfer refusal network ≡ ok tt
    → refusal ≡ none
check_transfer-none none network h = refl
check_transfer-none (some refusal) network h = cc

check_option-IsServable : (r : PaymentRequirements) → check_option r ≡ ok tt → IsServable r
unfolding check_option
check_option-IsServable r h = elim (Bool-cases (str_eq r.scheme scheme_exact)) [
  | inl exact ↦
      let (transfer, window) =
        >>-eq-ok (check_transfer (unsupported_transfer r) r.network) _
          (checked _ (str_eq r.scheme scheme_exact) exact h) in
      record {
        exact = (eq_iff r.scheme scheme_exact).0 exact;
        supported = check_transfer-none (unsupported_transfer r) r.network transfer;
        window = long _ (leb r.max_timeout_seconds settle_reserve_secs) refl window;
      }
  | inr other ↦ absurd (ground arith)
]
  where
    checked :
        {E A : Type 0} {a : Result E A} (bad : E) {b : A} (exact : Bool)
        → exact ≡ true
        → (if not exact then err bad else a) ≡ ok b
        → a ≡ ok b
    checked bad true e g = g
    checked bad false e g = cc

    long :
        (bad : GatewayError) (short : Bool)
        → short ≡ leb r.max_timeout_seconds settle_reserve_secs
        → ◌≡◌ {A = Result GatewayError (Unit {0})} (if short then err bad else ok tt) (ok tt)
        → settle_reserve_secs < r.max_timeout_seconds
    long bad true e g = cc
    long bad false e g = ground arith

check_options-IsServable :
    (rs : List PaymentRequirements) → check_options rs ≡ ok tt → All IsServable rs
unfolding check_options
check_options-IsServable [] h = tt
check_options-IsServable (r ∷ rs) h =
    let (first, rest) = >>-eq-ok (check_option r) (check_options rs) h in
    (check_option-IsServable r first, check_options-IsServable rs rest)

none_same :
    (r : PaymentRequirements) (rs : List PaymentRequirements)
    → any (same_option r) rs ≡ false
    → All (λ s. same_option r s ≡ false) rs
none_same r [] h = tt
none_same r (s ∷ rs) h = elim (Bool-cases (same_option r s)) [
  | inl same ↦ absurd (ground arith)
  | inr differs ↦ (differs, none_same r rs (ground arith))
]

check_unique-IsUnique : (rs : List PaymentRequirements) → check_unique rs ≡ ok tt → IsUnique rs
unfolding check_unique
check_unique-IsUnique [] h = tt
check_unique-IsUnique (r ∷ rs) h = elim (Bool-cases (any (same_option r) rs)) [
  | inl clash ↦ absurd (ground arith)
  | inr clear ↦ (none_same r rs clear, check_unique-IsUnique rs (ground arith))
]

-- A gateway that is built offers exactly the options it was given: each is for the scheme `exact`,
-- names no transfer that the gateway does not run and leaves time beside the settlement reserve, and
-- no two share a scheme and a network.
pub new-options :
    (backends : List Backend) (resource : ResourceInfo) (armed : ArmedRequirements) (g : Gateway)
    → new backends resource armed ≡ ok g
    → (g.requirements ≡ armed.requirements)
      × All IsServable armed.requirements
      × IsUnique armed.requirements
unfolding new
new-options backends resource armed g h =
    let (nonempty, h1) = >>-eq-ok (check_some armed.requirements) _ h in
    let (unique, h2) = >>-eq-ok (check_unique armed.requirements) _ h1 in
    let (servable, built) = >>-eq-ok (check_options armed.requirements) _ h2 in
    (
      ground arith,
      check_options-IsServable armed.requirements servable,
      check_unique-IsUnique armed.requirements unique,
    )

-- The price of an option, as a client reads it.
abbrev pub price_of : Gateway → RequestShape → Backend → PaymentRequirements → ℕ
price_of g request backend r =
    g.price (record { request = request; backend = backend; requirement = r })

-- Pricing an option changes its amount and nothing else, and the amount reads back as the price,
-- where the price is a `u128`.
pub repriced-amount :
    (g : Gateway) (request : RequestShape) (backend : Backend) (r : PaymentRequirements)
    → price_of g request backend r ≤ u128_max
    → (parse_u128 (repriced g request backend r).amount ≡ some (price_of g request backend r))
      × (record (repriced g request backend r) { amount = r.amount } ≡ r)
repriced-amount g request backend r fits =
    (parse_u128-to_decimal (price_of g request backend r) fits, refl)

same_option-priced :
    (g : Gateway) (request : RequestShape) (backend : Backend) (rs : List PaymentRequirements)
    → IsUnique rs
    → IsUnique (map (repriced g request backend) rs)
same_option-priced g request backend [] h = tt
same_option-priced g request backend (r ∷ rs) h =
    (apart rs h.0, same_option-priced g request backend rs h.1)
  where
    apart :
        (ss : List PaymentRequirements)
        → All (λ s. same_option r s ≡ false) ss
        → All
            (λ s. same_option (repriced g request backend r) s ≡ false)
            (map (repriced g request backend) ss)
    apart [] a = tt
    apart (s ∷ ss) a = (a.0, apart ss a.1)

same_pair : (a b c d : String) → a ≡ b → c ≡ d → str_eq a b && str_eq c d ≡ true
same_pair a b c d h k = rw ((eq_iff a b).1 h, (eq_iff c d).1 k) refl

-- The options of a list after the first that accepts a payment do not accept it.
others_refuse :
    (r : PaymentRequirements) (payment : PaymentPayload) (rs : List PaymentRequirements)
    → is_accepted_by r payment ≡ true
    → All (λ s. same_option r s ≡ false) rs
    → All (λ s. is_accepted_by s payment ≡ false) rs
others_refuse r payment [] accepted apart = tt
others_refuse r payment (s ∷ rs) accepted apart =
    (refuses, others_refuse r payment rs accepted apart.1)
  where
    refuses : is_accepted_by s payment ≡ false
    refuses = elim (Bool-cases (is_accepted_by s payment)) [
      | inl also ↦
          let (scheme, network, amount, asset, pay_to, window) =
            is_accepted_by_unique r s payment accepted also in
          cc (apart.0, same_pair r.scheme s.scheme r.network s.network scheme network)
      | inr no_match ↦ no_match
    ]

-- How many options of a list accept a payment.
abbrev pub acceptances : List PaymentRequirements → PaymentPayload → ℕ
acceptances [] payment = 0
acceptances (r ∷ rs) payment =
    if is_accepted_by r payment then suc (acceptances rs payment) else acceptances rs payment

no_acceptance :
    (rs : List PaymentRequirements) (payment : PaymentPayload)
    → All (λ s. is_accepted_by s payment ≡ false) rs
    → acceptances rs payment ≡ 0
no_acceptance [] payment h = refl
no_acceptance (r ∷ rs) payment h = rw h.0 (no_acceptance rs payment h.1)

unique-acceptances :
    (rs : List PaymentRequirements) (payment : PaymentPayload)
    → IsUnique rs
    → acceptances rs payment ≤ 1
unique-acceptances [] payment unique = omega arith
unique-acceptances (r ∷ rs) payment unique = elim (Bool-cases (is_accepted_by r payment)) [
  | inl accepts ↦
      rw (accepts, no_acceptance rs payment (others_refuse r payment rs accepts unique.0))
        (omega arith)
  | inr refuses ↦ rw refuses (unique-acceptances rs payment unique.1)
]

-- In a gateway that was built, whatever the prices, a payment is accepted by at most one of the
-- offers that a request is made.
pub priced-acceptances :
    (backends : List Backend) (resource : ResourceInfo) (armed : ArmedRequirements) (g : Gateway)
    (request : RequestShape) (backend : Backend) (payment : PaymentPayload)
    → new backends resource armed ≡ ok g
    → acceptances (priced g request backend) payment ≤ 1
unfolding priced
priced-acceptances backends resource armed g request backend payment h =
    let (same, servable, unique) = new-options backends resource armed g h in
    unique-acceptances (map (repriced g request backend) g.requirements) payment
      (same_option-priced g request backend g.requirements (subst IsUnique (sym same) unique))

priced-networks :
    (P : String → Type 0) (g : Gateway) (request : RequestShape) (backend : Backend)
    (rs : List PaymentRequirements)
    → All (λ r. P r.network) rs
    → All (λ offer. P offer.network) (map (repriced g request backend) rs)
priced-networks P g request backend [] h = tt
priced-networks P g request backend (r ∷ rs) h = (h.0, priced-networks P g request backend rs h.1)

-- Whatever its prices, a gateway that is built from options the guard passed offers only networks
-- that are provably testnet or that the operator named.
pub priced-MayAdvertise :
    (rs : List PaymentRequirements) (names : List String) (armed : ArmedRequirements)
    (backends : List Backend) (resource : ResourceInfo) (g : Gateway) (request : RequestShape)
    (backend : Backend)
    → check_arming rs names ≡ ok armed
    → new backends resource armed ≡ ok g
    → All (λ offer. MayAdvertise names offer.network) (priced g request backend)
unfolding priced
priced-MayAdvertise rs names armed backends resource g request backend guarded built =
    let (whole, allowed, unproven, named) = check_arming-guards rs names armed guarded in
    let (same, servable, unique) = new-options backends resource armed g built in
    priced-networks (MayAdvertise names) g request backend g.requirements
      (subst (All (λ r. MayAdvertise names r.network)) (sym (same ∙ whole)) allowed)
