-- ===== src/Gateway/Answers.antt =====
-- A client that waits is answered, for `serve` of obolus/src/gateway.rs: no request needs more than
-- three answers from outside.
use obolus.Prelude.{
  arith, ◌-◌, ◌==◌, ◌≤◌, ℕ, zero, suc, String, ◌≡◌, refl, Bool, true, false, Option, none, some,
  is_some,
}
use obolus.Prelude.Results.{Result, ok, err}
use obolus.Payment.{PaymentRequirements, PaymentPayload, SettlementReceipt}
use obolus.Payment.Transfer.{TransferRefusal, server_owned_extension_field, transfer_disagreement}
use obolus.Payment.Codec.{CodecError, decode_payment}
use obolus.Backends.{Backend, TokenRate, RouteError, route}
use obolus.Request.{RequestShape, parse}
use obolus.Request.Keys.{CaseVariant}
use obolus.Access.{Header, unset, opaque, visible, bearer_token}
use obolus.Facilitator.{FacilitatorError, rejected, unavailable, is_success}
use obolus.Pricing.{model_rate}
use obolus.Telemetry.{Trace, default_trace}
use obolus.Gateway.{CapRefusal, output_cap_refusal, accepted_for, UpstreamResponse, priced}
use obolus.Gateway.Steps.{Forwarded, answered, failed, timed_out, within, Env, Flow, run}
use obolus.Gateway.Paid.{
  Outside, Order, budget_of, on_receipt, after_settle, on_status, after_forward, on_remaining,
  after_verify, check_owned, check_agreement, with_option, with_payment, paid_completion,
}
use obolus.Gateway.Serve.{
  Arrived, Access, honoured, after_token, charge, check_rate, check_rates, check_cap, check_token,
  check_route, check_variant, serve,
}

-- A client that waits for so many answers has a response.
abbrev Ends : Env → (needed : ℕ) → Flow → Type 0
Ends env needed flow =
    (patience : ℕ) → needed ≤ patience → is_some (run env patience flow).response ≡ true

module _ (o : Outside) (order : Order) (env : Env) where
  after_settle-Ends :
      (r : PaymentRequirements) (response : UpstreamResponse) (trace : Trace)
      (answer : Result FacilitatorError SettlementReceipt)
      → Ends env 0 (after_settle o order r response trace answer)
  unfolding after_settle run
  after_settle-Ends r response trace (ok receipt) patience enough = received receipt.success
    where
      received :
          (success : Bool)
          → is_some
              (run env patience (on_receipt o order success r response trace receipt)).response
            ≡ true
      received true = refl
      received false = refl
  after_settle-Ends r response trace (err (rejected reason)) patience enough = refl
  after_settle-Ends r response trace (err (unavailable outage)) patience enough = refl

  on_status-Ends :
      (success : Bool) (payment : PaymentPayload) (r : PaymentRequirements) (trace : Trace)
      (response : UpstreamResponse)
      → Ends env 1 (on_status o order success payment r trace response)
  unfolding run
  on_status-Ends true payment r trace response zero enough = absurd (omega arith)
  on_status-Ends true payment r trace response (suc patience) enough =
      after_settle-Ends r response _ (env.settle payment r) patience (omega arith)
  on_status-Ends false payment r trace response patience enough = refl

  after_forward-Ends :
      (payment : PaymentPayload) (r : PaymentRequirements) (trace : Trace) (head : Forwarded)
      → Ends env 1 (after_forward o order payment r trace head)
  unfolding after_forward run
  after_forward-Ends payment r trace (answered response) patience enough =
      on_status-Ends (is_success response.status) payment r _ response patience enough
  after_forward-Ends payment r trace failed patience enough = refl
  after_forward-Ends payment r trace timed_out patience enough = refl

  on_remaining-Ends :
      (is_zero : Bool) (remaining : ℕ) (payment : PaymentPayload) (r : PaymentRequirements)
      (trace : Trace)
      → Ends env 2 (on_remaining o order is_zero remaining payment r trace)
  unfolding run
  on_remaining-Ends true remaining payment r trace patience enough = refl
  on_remaining-Ends false remaining payment r trace zero enough = absurd (omega arith)
  on_remaining-Ends false remaining payment r trace (suc patience) enough =
      after_forward-Ends payment r _
        (within (some remaining) (env.forward order.upstream order.body)) patience (omega arith)

  after_verify-Ends :
      (payment : PaymentPayload) (r : PaymentRequirements) (trace : Trace)
      (answer : Result FacilitatorError (Unit {0}) × ℕ)
      → Ends env 2 (after_verify o order payment r trace answer)
  unfolding after_verify run
  after_verify-Ends payment r trace (ok tt, elapsed) patience enough =
      on_remaining-Ends ((budget_of r - elapsed) == 0) (budget_of r - elapsed) payment r trace
        patience enough
  after_verify-Ends payment r trace (err (rejected reason), elapsed) patience enough = refl
  after_verify-Ends payment r trace (err (unavailable outage), elapsed) patience enough = refl

  check_owned-Ends :
      (payment : PaymentPayload) (r : PaymentRequirements) (trace : Trace)
      (owned : Option (String × String))
      → Ends env 3 (check_owned o order payment r trace owned)
  unfolding run
  check_owned-Ends payment r trace (some f) patience enough = refl
  check_owned-Ends payment r trace none zero enough = absurd (omega arith)
  check_owned-Ends payment r trace none (suc patience) enough =
      after_verify-Ends payment r _ (env.verify payment r) patience (omega arith)

  check_agreement-Ends :
      (payment : PaymentPayload) (r : PaymentRequirements) (trace : Trace)
      (disagreement : Option TransferRefusal)
      → Ends env 3 (check_agreement o order payment r trace disagreement)
  unfolding run
  check_agreement-Ends payment r trace (some d) patience enough = refl
  check_agreement-Ends payment r trace none patience enough =
      check_owned-Ends payment r trace (server_owned_extension_field payment) patience enough

  with_option-Ends :
      (payment : PaymentPayload) (trace : Trace) (found : Option PaymentRequirements)
      → Ends env 3 (with_option o order payment trace found)
  unfolding run
  with_option-Ends payment trace none patience enough = refl
  with_option-Ends payment trace (some r) patience enough =
      check_agreement-Ends payment r trace (transfer_disagreement r payment) patience enough

  with_payment-Ends :
      (trace : Trace) (read : Result CodecError PaymentPayload)
      → Ends env 3 (with_payment o order trace read)
  unfolding run
  with_payment-Ends trace (err e) patience enough = refl
  with_payment-Ends trace (ok payment) patience enough =
      with_option-Ends payment trace (accepted_for order.offered payment) patience enough

  paid_completion-Ends :
      (trace : Trace) (signature : Header) → Ends env 3 (paid_completion o order trace signature)
  unfolding paid_completion run
  paid_completion-Ends trace unset patience enough = refl
  paid_completion-Ends trace opaque patience enough = refl
  paid_completion-Ends trace (visible raw) patience enough =
      with_payment-Ends _ (decode_payment o.engines raw) patience enough

module _ (o : Outside) (access : Access) (arrived : Arrived) (env : Env) where
  after_token-Ends :
      (trace : Trace) (head : Forwarded) → Ends env 0 (after_token o access arrived trace head)
  unfolding run
  after_token-Ends trace (answered response) patience enough = refl
  after_token-Ends trace failed patience enough = refl
  after_token-Ends trace timed_out patience enough = refl

  charge-Ends :
      (request : RequestShape) (backend : Backend) (trace : Trace)
      → Ends env 3 (charge o access arrived request backend trace)
  charge-Ends request backend trace =
      paid_completion-Ends o
        (record {
          gateway = access.gateway;
          upstream = backend.upstream;
          offered = priced access.gateway request backend;
          body = arrived.body;
        })
        env trace arrived.signature

  check_rate-Ends :
      (request : RequestShape) (backend : Backend) (trace : Trace) (rate : Option TokenRate)
      → Ends env 3 (check_rate o access arrived request backend trace rate)
  unfolding run
  check_rate-Ends request backend trace none patience enough = refl
  check_rate-Ends request backend trace (some rate) patience enough =
      charge-Ends request backend _ patience enough

  check_rates-Ends :
      (required : Bool) (request : RequestShape) (backend : Backend) (trace : Trace)
      → Ends env 3 (check_rates o access arrived required request backend trace)
  check_rates-Ends true request backend trace =
      check_rate-Ends request backend trace (model_rate request backend)
  check_rates-Ends false request backend trace = charge-Ends request backend trace

  check_cap-Ends :
      (request : RequestShape) (backend : Backend) (trace : Trace) (why : Option CapRefusal)
      → Ends env 3 (check_cap o access arrived request backend trace why)
  unfolding run
  check_cap-Ends request backend trace (some why) patience enough = refl
  check_cap-Ends request backend trace none patience enough =
      check_rates-Ends access.gateway.model_rates_required request backend trace patience enough

  check_token-Ends :
      (request : RequestShape) (backend : Backend) (trace : Trace) (is_honoured : Bool)
      → Ends env 3 (check_token o access arrived request backend trace is_honoured)
  unfolding run
  check_token-Ends request backend trace true zero enough = absurd (omega arith)
  check_token-Ends request backend trace true (suc patience) enough =
      after_token-Ends _ (within none (env.forward backend.upstream arrived.body)) patience
        (omega arith)
  check_token-Ends request backend trace false patience enough =
      check_cap-Ends request backend _
        (output_cap_refusal request backend.kind access.gateway.max_output_tokens) patience enough

  check_route-Ends :
      (request : RequestShape) (trace : Trace) (routed : Result RouteError Backend)
      → Ends env 3 (check_route o access arrived request trace routed)
  unfolding run
  check_route-Ends request trace (err why) patience enough = refl
  check_route-Ends request trace (ok backend) patience enough =
      check_token-Ends request backend
        (record trace { backend = some backend.id; backend_cost = backend.cost })
        (honoured access.token_path (bearer_token arrived.authorization)) patience enough

  check_variant-Ends :
      (request : RequestShape) (trace : Trace) (variant : Option CaseVariant)
      → Ends env 3 (check_variant o access arrived request trace variant)
  unfolding run
  check_variant-Ends request trace (some v) patience enough = refl
  check_variant-Ends request trace none patience enough =
      check_route-Ends request trace (route access.gateway.backends request.model) patience enough

  -- A client that waits for three answers from outside has a response, whatever the answers are.
  pub serve-answers :
      (patience : ℕ)
      → 3 ≤ patience
      → is_some (run env patience (serve o access arrived)).response ≡ true
  unfolding serve
  serve-answers patience enough =
      check_variant-Ends (parse (o.read arrived.body))
        (record default_trace { model = (parse (o.read arrived.body)).model })
        (parse (o.read arrived.body)).case_variant patience enough
