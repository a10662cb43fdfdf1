-- ===== src/Gateway/Protocol.antt =====
-- The calls that a paid request makes, and how it ends, for `paid_completion` of
-- obolus/src/gateway.rs.
use obolus.Prelude.{
  ℕ, zero, suc, ◌+◌, ◌-◌, ◌<◌, String, ◌≡◌, ◌⊎◌, inl, inr, refl, ap, Bool, true, false, Option,
  none, some, [], ◌∷◌, ◌==◌, arith,
}
use obolus.Prelude.Results.{Result, ok, err}
use obolus.Payment.{PaymentRequirements, PaymentPayload, SettlementReceipt}
use obolus.Payment.Transfer.{transfer_disagreement, server_owned_extension_field}
use obolus.Payment.Codec.{decode_payment}
use obolus.Access.{Header, visible}
use obolus.Facilitator.{FacilitatorError, rejected, unavailable, is_success}
use obolus.Telemetry.{settled, Trace, offer_from, revenue_of}
use obolus.Gateway.{
  accepted_for, UpstreamResponse, Response, proxied, challenge, settle_refusal, proxy_response,
}
use obolus.Gateway.Steps.{
  Forwarded, answered, failed, timed_out, within, Env, forward_call, settle_call, Run, run,
}
use obolus.Gateway.Paid.{
  Outside, Order, budget_of, on_receipt, after_settle, on_status, after_forward, on_remaining,
  after_verify,
}

-- An answer of the upstream that the client was to pay for.
abbrev pub serves_work : Option Response → Bool
serves_work (some (proxied response receipt)) = is_success response.status
serves_work _ = false

abbrev pub revenue : Run → Option String
revenue r = revenue_of r.outcome r.trace

-- The client got no work, and the event says that nothing was charged.
abbrev pub Uncharged : Run → Type 0
Uncharged r = (serves_work r.response ≡ false) × (revenue r ≡ some "0")

-- A definite refusal to settle.
abbrev pub Denied : Result FacilitatorError SettlementReceipt → Type 0
Denied (ok receipt) = receipt.success ≡ false
Denied (err (rejected reason)) = Unit
Denied (err (unavailable outage)) = ⊥

abbrev pub Unanswered : Result FacilitatorError SettlementReceipt → Type 0
Unanswered (err (unavailable outage)) = Unit
Unanswered _ = ⊥

module _ (o : Outside) (order : Order) (env : Env) where
  -- The payment that the header carries, and the offer that it accepts.
  abbrev pub Presents : Header → PaymentPayload → PaymentRequirements → Type 0
  Presents signature payment r =
      (raw : String) × (signature ≡ visible raw)
      × (decode_payment o.engines raw ≡ ok payment)
      × (accepted_for order.offered payment ≡ some r)
      × (transfer_disagreement r payment ≡ none)
      × (server_owned_extension_field payment ≡ none)

  -- Verified, with time left in the payment's window less the reserve.
  abbrev pub IsVerified : PaymentPayload → PaymentRequirements → (remaining : ℕ) → Type 0
  IsVerified payment r remaining =
      ((env.verify payment r).0 ≡ ok tt)
      × (0 < remaining)
      × (remaining + (env.verify payment r).1 ≡ budget_of r)

  abbrev pub IsAnswered : PaymentPayload → PaymentRequirements → UpstreamResponse → Type 0
  IsAnswered payment r response =
      (remaining : ℕ) × IsVerified payment r remaining
      × (within (some remaining) (env.forward order.upstream order.body) ≡ answered response)
      × (is_success response.status ≡ true)

  -- What a settlement that was asked for comes to.
  abbrev pub IsPaid :
      PaymentRequirements
      → UpstreamResponse
      → Result FacilitatorError SettlementReceipt
      → Run
      → Type 0
  IsPaid r response answer ended =
      (receipt : SettlementReceipt) × (answer ≡ ok receipt)
      × (receipt.success ≡ true)
      × (ended.response ≡ some (proxy_response o.header_safe response (some receipt)))
      × (ended.outcome ≡ settled)
      × (revenue ended ≡ some r.amount)

  abbrev pub IsUnknown : Result FacilitatorError SettlementReceipt → Run → Type 0
  IsUnknown answer ended =
      (Unanswered answer ⊎ (ended.response ≡ none))
      × (serves_work ended.response ≡ false)
      × (revenue ended ≡ none)

  abbrev pub IsSettlement :
      PaymentRequirements
      → UpstreamResponse
      → Result FacilitatorError SettlementReceipt
      → Run
      → Type 0
  IsSettlement r response answer ended =
      IsPaid r response answer ended ⊎ ((Denied answer × Uncharged ended) ⊎ IsUnknown answer ended)

  on_receipt-IsSettlement :
      (success : Bool) (patience : ℕ) (r : PaymentRequirements) (response : UpstreamResponse)
      (trace : Trace) (receipt : SettlementReceipt)
      → trace.paid ≡ some (offer_from r)
      → receipt.success ≡ success
      → ((run env patience (on_receipt o order success r response trace receipt)).calls ≡ [])
        × IsSettlement r response
            (ok receipt)
            (run env patience (on_receipt o order success r response trace receipt))
  unfolding run revenue_of settle_refusal offer_from
  on_receipt-IsSettlement true patience r response trace receipt paid success =
      (refl, inl (receipt, refl, success, refl, refl, rw paid refl))
  on_receipt-IsSettlement false patience r response trace receipt paid failure =
      (refl, inr (inl (failure, (refl, refl))))

  after_settle-IsSettlement :
      (patience : ℕ) (r : PaymentRequirements) (response : UpstreamResponse) (trace : Trace)
      (answer : Result FacilitatorError SettlementReceipt)
      → trace.paid ≡ some (offer_from r)
      → ((run env patience (after_settle o order r response trace answer)).calls ≡ [])
        × IsSettlement r response answer
            (run env patience (after_settle o order r response trace answer))
  unfolding after_settle run revenue_of settle_refusal
  after_settle-IsSettlement patience r response trace (ok receipt) paid =
      on_receipt-IsSettlement receipt.success patience r response trace receipt paid refl
  after_settle-IsSettlement patience r response trace (err (rejected reason)) paid =
      (refl, inr (inl (tt, (refl, refl))))
  after_settle-IsSettlement patience r response trace (err (unavailable outage)) paid =
      (refl, inr (inr (inl tt, refl, refl)))

  -- From the response head on: no call and nothing charged, or `settle` alone.
  abbrev pub FromHead : PaymentPayload → PaymentRequirements → Forwarded → Run → Type 0
  FromHead payment r head ended =
      ((ended.calls ≡ []) × Uncharged ended)
      ⊎ ((response : UpstreamResponse) × (head ≡ answered response)
          × (is_success response.status ≡ true)
          × (ended.calls ≡ settle_call payment r ∷ [])
          × IsSettlement r response (env.settle payment r) ended)

  on_status-FromHead :
      (success : Bool) (patience : ℕ) (payment : PaymentPayload) (r : PaymentRequirements)
      (trace : Trace) (response : UpstreamResponse)
      → trace.paid ≡ some (offer_from r)
      → is_success response.status ≡ success
      → FromHead payment r
          (answered response)
          (run env patience (on_status o order success payment r trace response))
  unfolding run revenue_of proxy_response
  on_status-FromHead true zero payment r trace response paid success =
      inr (response, refl, success, refl, inr (inr (inr refl, refl, refl)))
  on_status-FromHead true (suc patience) payment r trace response paid success =
      let (calls, settlement) =
        after_settle-IsSettlement patience r response (record trace { settle_attempted = true })
          (env.settle payment r) paid in
      inr (response, refl, success, ap (λ c. settle_call payment r ∷ c) calls, settlement)
  on_status-FromHead false patience payment r trace response paid failure =
      inl (refl, (failure, refl))

  after_forward-FromHead :
      (patience : ℕ) (payment : PaymentPayload) (r : PaymentRequirements) (trace : Trace)
      (head : Forwarded)
      → trace.paid ≡ some (offer_from r)
      → FromHead payment r head (run env patience (after_forward o order payment r trace head))
  unfolding after_forward run revenue_of
  after_forward-FromHead patience payment r trace (answered response) paid =
      on_status-FromHead (is_success response.status) patience payment r
        (record trace { upstream_status = some response.status }) response paid refl
  after_forward-FromHead patience payment r trace failed paid = inl (refl, (refl, refl))
  after_forward-FromHead patience payment r trace timed_out paid = inl (refl, (refl, refl))

  -- From the answer of `verify` on.
  abbrev pub FromVerify :
      PaymentPayload → PaymentRequirements → Result FacilitatorError (Unit {0}) × ℕ → Run → Type 0
  FromVerify payment r answer ended =
      ((ended.calls ≡ []) × Uncharged ended)
      ⊎ ((remaining : ℕ) × (answer.0 ≡ ok tt)
          × (0 < remaining)
          × (remaining + answer.1 ≡ budget_of r)
          × (((ended.calls ≡ forward_call order.upstream order.body ∷ []) × Uncharged ended)
              ⊎ ((response : UpstreamResponse) × (within (some remaining)
                      (env.forward order.upstream order.body)
                    ≡ answered response)
                  × (is_success response.status ≡ true)
                  × (ended.calls
                      ≡ forward_call order.upstream order.body ∷ settle_call payment r ∷ [])
                  × IsSettlement r response (env.settle payment r) ended)))

  on_remaining-FromVerify :
      (is_zero : Bool) (remaining elapsed patience : ℕ) (payment : PaymentPayload)
      (r : PaymentRequirements) (trace : Trace)
      → trace.paid ≡ some (offer_from r)
      → trace.settle_attempted ≡ false
      → (is_zero ≡ false → (0 < remaining) × (remaining + elapsed ≡ budget_of r))
      → FromVerify payment r
          (ok tt, elapsed)
          (run env patience (on_remaining o order is_zero remaining payment r trace))
  unfolding run revenue_of
  on_remaining-FromVerify true remaining elapsed patience payment r trace paid fresh left =
      inl (refl, (refl, refl))
  on_remaining-FromVerify false remaining elapsed zero payment r trace paid fresh left =
      let (positive, sum) = left refl in
      inr (remaining, refl, positive, sum, inl (refl, (refl, rw fresh refl)))
  on_remaining-FromVerify false remaining elapsed (suc patience) payment r trace paid fresh left =
      let (positive, sum) = left refl in
      elim (after_forward-FromHead patience payment r (record trace { upstream_invoked = true })
        (within (some remaining) (env.forward order.upstream order.body)) paid) [
          | inl (calls, free) ↦ inr (
            remaining,
            refl,
            positive,
            sum,
            inl (ap (λ c. forward_call order.upstream order.body ∷ c) calls, free),
          )
          | inr (response, head, success, calls, settlement) ↦ inr (
            remaining,
            refl,
            positive,
            sum,
            inr (
              response,
              head,
              success,
              ap (λ c. forward_call order.upstream order.body ∷ c) calls,
              settlement,
            ),
          )
        ]

  pub after_verify-FromVerify :
      (patience : ℕ) (payment : PaymentPayload) (r : PaymentRequirements) (trace : Trace)
      (answer : Result FacilitatorError (Unit {0}) × ℕ)
      → trace.paid ≡ some (offer_from r)
      → trace.settle_attempted ≡ false
      → FromVerify payment r answer (run env patience (after_verify o order payment r trace answer))
  unfolding after_verify run revenue_of challenge
  after_verify-FromVerify patience payment r trace (ok tt, elapsed) paid fresh =
      on_remaining-FromVerify ((budget_of r - elapsed) == 0) (budget_of r - elapsed) elapsed
        patience payment r trace paid fresh (left (budget_of r))
    where
      left :
          (budget : ℕ)
          → (budget - elapsed) == 0 ≡ false
          → (0 < budget - elapsed) × ((budget - elapsed) + elapsed ≡ budget)
      left budget h = (ground arith, ground arith)
  after_verify-FromVerify patience payment r trace (err (rejected reason), elapsed) paid fresh =
      inl (refl, (refl, refl))
  after_verify-FromVerify patience payment r trace (err (unavailable outage), elapsed) paid fresh =
      inl (refl, (refl, refl))
