-- ===== src/Gateway.antt =====
-- The gateway of obolus/src/gateway.rs: its construction, its prices, its refusals and what it
-- answers. The steps of a request are in Gateway/Steps, Gateway/Paid and Gateway/Serve.
pub mod Steps
pub mod Paid
pub mod Serve
pub mod Protocol
pub mod Ledger
pub mod Endings
pub mod Charges
pub mod Answers
pub mod Offers
pub mod Caps
mod Tests
use obolus.Prelude.{
  ℕ, ◌-◌, ◌*◌, String, Bool, true, false, ◌&&◌, ◌||◌, not, Option, none, some, List, [], ◌∷◌, any,
  map, find, leb, ltb, ◌==◌, str_eq, filter_option, is_some, if◌then◌else◌,
}
use obolus.Prelude.Results.{Result, ok, err, ◌>>◌, ◌>>=◌}
use obolus.Amount.{to_decimal}
use obolus.Payment.{
  ResourceInfo, PaymentRequirements, PaymentPayload, PaymentRequired, SettlementReceipt,
  scheme_exact, is_accepted_by, offering_all,
}
use obolus.Payment.Transfer.{TransferRefusal, unsupported_transfer}
use obolus.Payment.Codec.{Bytes, CodecError}
use obolus.Backends.{Backend, Kind, ollama, openai_compat, anthropic_compat, RouteError}
use obolus.Request.{RequestShape}
use obolus.Request.Pass.{MaxTokens, absent, invalid, limit}
use obolus.Arming.{ArmedRequirements}
use obolus.Pricing.{PriceDeterminer, static_price}

pub data GatewayError : Type 0 where
  no_payment_options : GatewayError
  duplicate_option unsupported_scheme : (scheme : String) → (network : String) → GatewayError
  unsupported_option : (network : String) → TransferRefusal → GatewayError
  window_too_short : (network : String) → (max_timeout_seconds : ℕ) → GatewayError

abbrev pub settle_reserve_secs : ℕ
settle_reserve_secs = 15

abbrev pub default_max_output_tokens : ℕ
default_max_output_tokens = 4096

-- The facilitator and the telemetry sink act outside: see Gateway/Steps.
pub record Gateway : Type 0 where
  pub backends : List Backend
  pub resource : ResourceInfo
  pub requirements : List PaymentRequirements
  pub price : PriceDeterminer
  pub max_output_tokens : ℕ
  pub model_rates_required : Bool

abbrev pub same_option : PaymentRequirements → PaymentRequirements → Bool
same_option a b = str_eq a.scheme b.scheme && str_eq a.network b.network

unfoldable pub check_unique : List PaymentRequirements → Result GatewayError (Unit {0})
check_unique [] = ok tt
check_unique (a ∷ rs) =
    if any (same_option a) rs then err (duplicate_option a.scheme a.network) else check_unique rs

abbrev pub check_transfer :
    Option TransferRefusal → (network : String) → Result GatewayError (Unit {0})
check_transfer none network = ok tt
check_transfer (some refusal) network = err (unsupported_option network refusal)

unfoldable pub check_option : PaymentRequirements → Result GatewayError (Unit {0})
check_option option =
    if not (str_eq option.scheme scheme_exact)
    then err (unsupported_scheme option.scheme option.network)
    else (check_transfer (unsupported_transfer option) option.network
        >> (if leb option.max_timeout_seconds settle_reserve_secs
            then err (window_too_short option.network option.max_timeout_seconds)
            else ok tt))

unfoldable pub check_options : List PaymentRequirements → Result GatewayError (Unit {0})
check_options [] = ok tt
check_options (r ∷ rs) = check_option r >> check_options rs

abbrev pub check_some : List PaymentRequirements → Result GatewayError (Unit {0})
check_some [] = err no_payment_options
check_some (_ ∷ _) = ok tt

-- `Gateway::new`.
unfoldable pub new : List Backend → ResourceInfo → ArmedRequirements → Result GatewayError Gateway
unfolding check_unique check_options
new backends resource armed =
    check_some armed.requirements
    >> (check_unique armed.requirements
        >> (check_options armed.requirements
            >> ok (record {
              backends = backends;
              resource = resource;
              requirements = armed.requirements;
              price = static_price;
              max_output_tokens = default_max_output_tokens;
              model_rates_required = false;
            })))

-- `with_model_rates_required`, `with_max_output_tokens` and `with_price_determiner`.
abbrev pub with_model_rates_required : Gateway → Gateway
with_model_rates_required g = record g { model_rates_required = true }

abbrev pub with_max_output_tokens : ℕ → Gateway → Gateway
with_max_output_tokens cap g = record g { max_output_tokens = cap }

abbrev pub with_price_determiner : PriceDeterminer → Gateway → Gateway
with_price_determiner price g = record g { price = price }

abbrev pub repriced : Gateway → RequestShape → Backend → PaymentRequirements → PaymentRequirements
repriced g request backend requirement = record requirement {
  amount =
      to_decimal
        (g.price (record { request = request; backend = backend; requirement = requirement }));
}

unfoldable pub priced : Gateway → RequestShape → Backend → List PaymentRequirements
priced g request backend = map (repriced g request backend) g.requirements

unfoldable pub accepted_for : List PaymentRequirements → PaymentPayload → Option PaymentRequirements
accepted_for offered payment = find (λ r. is_accepted_by r payment) offered

unfoldable pub repriced_for : List PaymentRequirements → PaymentPayload → Option PaymentRequirements
repriced_for offered payment =
    find (λ r. is_accepted_by (record r { amount = payment.accepted.amount }) payment) offered

-- What a refusal by the output cap tells the client.
pub data CapRefusal : Type 0 where
  not_read_in_full completion_limit_given several_completions best_of_given : CapRefusal
  zero_limit no_limit not_a_limit : CapRefusal
  above_cap : ℕ → CapRefusal

abbrev pub lifts : RequestShape → Kind → Option CapRefusal
lifts request ollama = none
lifts request _ =
    if request.max_completion_tokens
    then some completion_limit_given
    else if request.n_other_than_one
    then some several_completions
    else if request.best_of
    then some best_of_given
    else none

abbrev pub limit_refusal : MaxTokens → (cap : ℕ) → Option CapRefusal
limit_refusal (limit asked) cap =
    if asked == 0 then some zero_limit else if leb asked cap then none else some (above_cap asked)
limit_refusal absent cap = some no_limit
limit_refusal invalid cap = some not_a_limit

abbrev pub lifted_or : Option CapRefusal → Option CapRefusal → Option CapRefusal
lifted_or none next = next
lifted_or (some why) next = some why

unfoldable pub output_cap_refusal : RequestShape → Kind → (cap : ℕ) → Option CapRefusal
output_cap_refusal request kind cap =
    if not request.read_in_full
    then some not_read_in_full
    else lifted_or (lifts request kind) (limit_refusal request.max_tokens cap)

-- The `error` of a challenge, before it is written out.
pub data Complaint : Type 0 where
  not_ascii : Complaint
  undecodable : CodecError → Complaint
  price_moved : (by_body : Bool) → (paid : String) → (current : PaymentRequirements) → Complaint
  unmatched : (scheme : String) → (network : String) → Complaint
  transfer_named : TransferRefusal → Complaint
  extension_set : String × String → Complaint
  refused : String → Complaint

pub record UpstreamResponse : Type 0 where
  pub status : ℕ
  pub content_type : Option String
  pub body : Bytes

-- A response by what it is built from. `challenged` is the 402, whose challenge stands in a header
-- and in the body, with a receipt where settlement was refused; `upstream_failure` is the 502 and
-- `window_elapsed` the 504; `route_failure` is the 404 or 400 of a routing error, and the three
-- after it are 400s.
pub data Response : Type 0 where
  challenged : PaymentRequired → Option Complaint → Option SettlementReceipt → Response
  upstream_failure window_elapsed : Response
  route_failure : RouteError → Response
  case_variant_refusal : (key : String) → (of : String) → Response
  output_cap_response : CapRefusal → Response
  unpriced_model_refusal : (model : Option String) → Response
  proxied : UpstreamResponse → Option SettlementReceipt → Response

unfoldable pub challenge : ResourceInfo → List PaymentRequirements → Option Complaint → Response
challenge resource offered complaint = challenged (offering_all resource offered) complaint none

unfoldable pub settle_refusal :
    ResourceInfo
    → List PaymentRequirements
    → (network : String) → (reason : String) → (transaction : String) → Response
settle_refusal resource offered network reason transaction =
    challenged (offering_all resource offered) (some (refused reason)) (
      some (record {
        success = false;
        error_reason = some reason;
        transaction = transaction;
        network = network;
        payer = none;
        amount = none;
      }))

-- `proxy_response`: a content type that is not header-safe is dropped.
unfoldable pub proxy_response :
    (header_safe : String → Bool) → UpstreamResponse → Option SettlementReceipt → Response
proxy_response header_safe response receipt =
    proxied (record response { content_type = filter_option header_safe response.content_type })
      receipt
