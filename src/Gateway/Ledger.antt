-- ===== src/Gateway/Ledger.antt =====
-- How a paid request ends, for `paid_completion` of obolus/src/gateway.rs.
use obolus.Prelude.{
  ℕ, zero, suc, String, ◌≡◌, inl, inr, refl, ap, false, Option, none, some, [], ◌∷◌,
}
use obolus.Payment.{PaymentRequirements, PaymentPayload}
use obolus.Payment.Transfer.{TransferRefusal, transfer_disagreement, server_owned_extension_field}
use obolus.Prelude.Results.{Result, ok, err}
use obolus.Payment.Codec.{CodecError, decode_payment}
use obolus.Access.{Header, unset, opaque, visible}
use obolus.Telemetry.{Trace, offer_from, revenue_of}
use obolus.Gateway.{accepted_for, UpstreamResponse, challenge}
use obolus.Gateway.Steps.{Env, verify_call, forward_call, settle_call, Run, run}
use obolus.Gateway.Paid.{
  Outside, Order, check_owned, check_agreement, with_option, with_payment, paid_completion,
}
use obolus.Gateway.Protocol.{
  Uncharged, Presents, IsVerified, IsAnswered, IsSettlement, after_verify-FromVerify,
}

module _ (o : Outside) (order : Order) (env : Env) where
  pub data Story (signature : Header) (ended : Run) : Type 0 where
    unpaid : ended.calls ≡ [] → Uncharged ended → Story signature ended
    asked :
        (payment : PaymentPayload) (r : PaymentRequirements)
        → Presents o order env signature payment r
        → ended.calls ≡ verify_call payment r ∷ []
        → Uncharged ended
        → Story signature ended
    ran :
        (payment : PaymentPayload) (r : PaymentRequirements) (remaining : ℕ)
        → Presents o order env signature payment r
        → IsVerified o order env payment r remaining
        → ended.calls ≡ verify_call payment r ∷ forward_call order.upstream order.body ∷ []
        → Uncharged ended
        → Story signature ended
    charged :
        (payment : PaymentPayload) (r : PaymentRequirements) (response : UpstreamResponse)
        → Presents o order env signature payment r
        → IsAnswered o order env payment r response
        → ended.calls
          ≡ verify_call payment r
            ∷ forward_call order.upstream order.body
            ∷ settle_call payment r
            ∷ []
        → IsSettlement o order env r response (env.settle payment r) ended
        → Story signature ended

  verified-Story :
      (signature : Header) (patience : ℕ) (payment : PaymentPayload) (r : PaymentRequirements)
      (trace : Trace)
      → trace.settle_attempted ≡ false
      → Presents o order env signature payment r
      → Story signature (run env patience (check_owned o order payment r trace none))
  unfolding run revenue_of
  verified-Story signature zero payment r trace fresh presented =
      asked payment r presented refl (refl, rw fresh refl)
  verified-Story signature (suc patience) payment r trace fresh presented =
      elim (after_verify-FromVerify o order env patience payment r
        (record trace { paid = some (offer_from r) }) (env.verify payment r) refl fresh) [
          | inl (calls, free) ↦
              asked payment r presented (ap (λ c. verify_call payment r ∷ c) calls) free
          | inr (remaining, valid, positive, sum, inl (calls, free)) ↦
              ran payment r remaining presented (valid, positive, sum)
                (ap (λ c. verify_call payment r ∷ c) calls) free
          | inr
                (
                  remaining,
                  valid,
                  positive,
                  sum,
                  inr (response, head, success, calls, settlement),
                ) ↦
              charged payment r response presented
                (remaining, (valid, positive, sum), head, success)
                (ap (λ c. verify_call payment r ∷ c) calls) settlement
        ]

  check_agreement-Story :
      (signature : Header) (patience : ℕ) (payment : PaymentPayload) (r : PaymentRequirements)
      (trace : Trace) (raw : String) (disagreement : Option TransferRefusal)
      (owned : Option (String × String))
      → trace.settle_attempted ≡ false
      → signature ≡ visible raw
      → decode_payment o.engines raw ≡ ok payment
      → accepted_for order.offered payment ≡ some r
      → transfer_disagreement r payment ≡ disagreement
      → server_owned_extension_field payment ≡ owned
      → Story signature (run env patience (check_agreement o order payment r trace disagreement))
  unfolding run revenue_of challenge
  check_agreement-Story signature patience payment r trace raw (some d) owned fresh h d' f a x =
      unpaid refl (refl, refl)
  check_agreement-Story signature patience payment r trace raw none (some f) fresh h d' f' a x =
      rw x (unpaid refl (refl, refl))
  check_agreement-Story signature patience payment r trace raw none none fresh h d f a x =
      rw x (verified-Story signature patience payment r trace fresh (raw, h, d, f, a, x))

  with_option-Story :
      (signature : Header) (patience : ℕ) (payment : PaymentPayload) (trace : Trace) (raw : String)
      (found : Option PaymentRequirements)
      → trace.settle_attempted ≡ false
      → signature ≡ visible raw
      → decode_payment o.engines raw ≡ ok payment
      → accepted_for order.offered payment ≡ found
      → Story signature (run env patience (with_option o order payment trace found))
  unfolding run revenue_of challenge
  with_option-Story signature patience payment trace raw none fresh h d f = unpaid refl (refl, refl)
  with_option-Story signature patience payment trace raw (some r) fresh h d f =
      check_agreement-Story signature patience payment r trace raw (transfer_disagreement r payment)
        (server_owned_extension_field payment) fresh h d f refl refl

  with_payment-Story :
      (signature : Header) (patience : ℕ) (trace : Trace) (raw : String)
      (read : Result CodecError PaymentPayload)
      → trace.settle_attempted ≡ false
      → signature ≡ visible raw
      → decode_payment o.engines raw ≡ read
      → Story signature (run env patience (with_payment o order trace read))
  unfolding run revenue_of challenge
  with_payment-Story signature patience trace raw (err e) fresh h d = unpaid refl (refl, refl)
  with_payment-Story signature patience trace raw (ok payment) fresh h d =
      with_option-Story signature patience payment trace raw (accepted_for order.offered payment)
        fresh h d refl

  -- A paid request is turned away unasked and uncharged; or its payment is put to the facilitator
  -- alone and nothing is charged; or after an acceptance, within the payment's window less the
  -- reserve, the upstream is called and nothing is charged; or, only after the upstream's head
  -- reported success, the same payment is put to `settle` for the same offer. Work is then served
  -- exactly on a receipt of success, and the event holds the amount of that offer; a definite
  -- refusal charges nothing, and otherwise the event leaves the charge unknown.
  pub paid_completion-Story :
      (signature : Header) (patience : ℕ) (trace : Trace)
      → trace.settle_attempted ≡ false
      → Story signature (run env patience (paid_completion o order trace signature))
  unfolding paid_completion run revenue_of challenge
  paid_completion-Story unset patience trace fresh = unpaid refl (refl, refl)
  paid_completion-Story opaque patience trace fresh = unpaid refl (refl, refl)
  paid_completion-Story (visible raw) patience trace fresh =
      with_payment-Story (visible raw) patience _ raw (decode_payment o.engines raw) fresh refl refl
