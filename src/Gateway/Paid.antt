-- ===== src/Gateway/Paid.antt =====
-- `paid_completion` of obolus/src/gateway.rs.
use obolus.Prelude.{
  ℕ, ◌-◌, ◌*◌, ◌^◌, String, Bool, true, false, Option, none, some, List, map, ◌==◌, is_empty, not,
  unwrap_or, filter_option,
}
use obolus.Prelude.Results.{Result, ok, err}
use obolus.Payment.{PaymentRequirements, PaymentPayload, SettlementReceipt}
use obolus.Payment.Transfer.{TransferRefusal, transfer_disagreement, server_owned_extension_field}
use obolus.Payment.Codec.{Bytes, Engines, CodecError, decode_payment}
use obolus.Backends.{Upstream}
use obolus.Request.Reader.{Document}
use obolus.Access.{Header, unset, opaque, visible}
use obolus.Facilitator.{FacilitatorError, rejected, unavailable, is_success}
use obolus.Telemetry.{
  Outcome, payment_required, payment_malformed, option_unmatched, verify_rejected,
  verify_unavailable, upstream_unavailable, upstream_refused, payment_window_elapsed,
  settle_rejected, settle_unavailable, settled, Trace, offer_from,
}
use obolus.Gateway.{
  Gateway, settle_reserve_secs, accepted_for, repriced_for, Complaint, not_ascii, undecodable,
  price_moved, unmatched, transfer_named, extension_set, refused, UpstreamResponse,
  upstream_failure, window_elapsed, challenge, settle_refusal, proxy_response,
}
use obolus.Gateway.Steps.{
  Forwarded, answered, failed, timed_out, Flow, finished, verifying, forwarding, settling,
}

-- Other people's code that a request passes through.
pub record Outside : Type 0 where
  pub engines : Engines
  pub read : Bytes → Document
  pub header_safe : String → Bool

-- A second in the unit of the clock.
abbrev pub second : ℕ
second = 10 ^ 9

abbrev pub budget_of : PaymentRequirements → ℕ
budget_of r = (r.max_timeout_seconds - settle_reserve_secs) * second

-- One paid request: the gateway, its offers and what it forwards.
pub record Order : Type 0 where
  pub gateway : Gateway
  pub upstream : Upstream
  pub offered : List PaymentRequirements
  pub body : Bytes

module _ (o : Outside) (order : Order) where
  abbrev pub complain : Complaint → Outcome → Trace → Flow
  complain complaint outcome trace =
      finished (challenge order.gateway.resource order.offered (some complaint)) outcome trace

  abbrev pub no_answer : Outcome → Trace → Flow
  no_answer outcome trace = finished upstream_failure outcome trace

  -- What a receipt leads to, by its own word on success.
  abbrev pub on_receipt :
      (success : Bool) → PaymentRequirements → UpstreamResponse → Trace → SettlementReceipt → Flow
  on_receipt true r response trace receipt =
      finished (proxy_response o.header_safe response (some receipt)) settled (record trace {
        transaction = filter_option (λ t. not (is_empty t)) (some receipt.transaction);
      })
  on_receipt false r response trace receipt =
      finished
        (settle_refusal order.gateway.resource order.offered r.network
          (unwrap_or receipt.error_reason "settlement did not complete") receipt.transaction)
        settle_rejected trace

  -- From the answer of `settle` on.
  unfoldable pub after_settle :
      PaymentRequirements
      → UpstreamResponse
      → Trace
      → Result FacilitatorError SettlementReceipt
      → Flow
  after_settle r response trace (ok receipt) = on_receipt receipt.success r response trace receipt
  after_settle r response trace (err (rejected reason)) =
      finished (settle_refusal order.gateway.resource order.offered r.network reason "")
        settle_rejected trace
  after_settle r response trace (err (unavailable outage)) = no_answer settle_unavailable trace

  abbrev pub on_status :
      (success : Bool) → PaymentPayload → PaymentRequirements → Trace → UpstreamResponse → Flow
  on_status true payment r trace response =
      settling payment r (record trace { settle_attempted = true })
        (after_settle r response (record trace { settle_attempted = true }))
  on_status false payment r trace response =
      finished (proxy_response o.header_safe response none) upstream_refused trace

  -- From the upstream's response head on.
  unfoldable pub after_forward : PaymentPayload → PaymentRequirements → Trace → Forwarded → Flow
  after_forward payment r trace (answered response) =
      on_status (is_success response.status) payment r
        (record trace { upstream_status = some response.status }) response
  after_forward payment r trace failed = no_answer upstream_unavailable trace
  after_forward payment r trace timed_out = finished window_elapsed payment_window_elapsed trace

  abbrev pub on_remaining :
      (is_zero : Bool) → (remaining : ℕ) → PaymentPayload → PaymentRequirements → Trace → Flow
  on_remaining true remaining payment r trace = finished window_elapsed payment_window_elapsed trace
  on_remaining false remaining payment r trace =
      forwarding order.upstream order.body (some remaining)
        (record trace { upstream_invoked = true })
        (after_forward payment r (record trace { upstream_invoked = true }))

  -- From the answer of `verify` on. The upstream has what is left of the budget.
  unfoldable pub after_verify :
      PaymentPayload → PaymentRequirements → Trace → Result FacilitatorError (Unit {0}) × ℕ → Flow
  after_verify payment r trace (ok tt, elapsed) =
      let remaining = budget_of r - elapsed in
      on_remaining (remaining == 0) remaining payment r trace
  after_verify payment r trace (err (rejected reason), elapsed) =
      complain (refused reason) verify_rejected trace
  after_verify payment r trace (err (unavailable outage), elapsed) =
      no_answer verify_unavailable trace

  abbrev pub no_option : PaymentPayload → Option PaymentRequirements → Complaint
  no_option payment (some current) =
      price_moved order.gateway.model_rates_required payment.accepted.amount current
  no_option payment none = unmatched payment.accepted.scheme payment.accepted.network

  abbrev pub check_owned :
      PaymentPayload → PaymentRequirements → Trace → Option (String × String) → Flow
  check_owned payment r trace (some f) = complain (extension_set f) option_unmatched trace
  check_owned payment r trace none =
      verifying payment r (record trace { paid = some (offer_from r) })
        (after_verify payment r (record trace { paid = some (offer_from r) }))

  abbrev pub check_agreement :
      PaymentPayload → PaymentRequirements → Trace → Option TransferRefusal → Flow
  check_agreement payment r trace (some d) = complain (transfer_named d) option_unmatched trace
  check_agreement payment r trace none =
      check_owned payment r trace (server_owned_extension_field payment)

  abbrev pub with_option : PaymentPayload → Trace → Option PaymentRequirements → Flow
  with_option payment trace none =
      complain (no_option payment (repriced_for order.offered payment)) option_unmatched trace
  with_option payment trace (some r) =
      check_agreement payment r trace (transfer_disagreement r payment)

  abbrev pub with_payment : Trace → Result CodecError PaymentPayload → Flow
  with_payment trace (err e) = complain (undecodable e) payment_malformed trace
  with_payment trace (ok payment) = with_option payment trace (accepted_for order.offered payment)

  abbrev pub with_signature : Trace → Header → Flow
  with_signature trace unset =
      finished (challenge order.gateway.resource order.offered none) payment_required trace
  with_signature trace opaque = complain not_ascii payment_malformed trace
  with_signature trace (visible raw) = with_payment trace (decode_payment o.engines raw)

  unfoldable pub paid_completion : Trace → Header → Flow
  paid_completion trace signature =
      with_signature (record trace { offers = map offer_from order.offered }) signature
