-- ===== src/Facilitator/Exchange.antt =====
-- What an exchange with the facilitator can end in, for `round_trip`, `verify` and `settle` of
-- obolus/src/facilitator.rs.
use obolus.Prelude.{
  ℕ, ◌≤◌, ◌≡◌, ◌≢◌, String, Bool, true, false, Option, none, some, List, length, leb, arith,
}
use obolus.Prelude.Results.{ok, err, >>=-eq-ok, >>=-eq-err}
use obolus.Json.{Value}
use obolus.Payment.{PaymentPayload, PaymentRequirements, SettlementReceipt}
use obolus.Facilitator.{rejected, VerifyResponse, SettleResponse}
use obolus.Facilitator.Receipts.{Evidenced, settle-receipt}
use obolus.Facilitator.Verdicts.{Accepted, Refused, IsBounded, verify-verdict}
use obolus.Facilitator.Delegated.{
  DelegatedFacilitator, Exchange, max_facilitator_response_bytes, answered_in_time,
  facilitator_request, round_trip, verify_payment, settle_payment,
}

-- The exchange ended within the deadline, in an answer of this status whose body is within the limit.
pub record IsWithin (f : DelegatedFacilitator) (exchange : Exchange) (status : ℕ) (body : List ℕ)
    : Type 0 where
  pub in_time : exchange.took ≤ f.timeout
  pub answered : exchange.answer ≡ some (status, body)
  pub bounded : length body ≤ max_facilitator_response_bytes

answered_in_time-eq-ok :
    (in_time : Bool) (answer : Option (ℕ × List ℕ)) {status : ℕ} {body : List ℕ}
    → answered_in_time in_time answer ≡ ok (status, body)
    → (in_time ≡ true)
      × (answer ≡ some (status, body))
      × (length body ≤ max_facilitator_response_bytes)
answered_in_time-eq-ok true none h = cc
answered_in_time-eq-ok true (some (s, b)) h = ground arith
answered_in_time-eq-ok false answer h = cc

answered_in_time-not_rejected :
    (in_time : Bool) (answer : Option (ℕ × List ℕ)) (reason : String)
    → answered_in_time in_time answer ≢ err (rejected reason)
answered_in_time-not_rejected true none reason h = cc
answered_in_time-not_rejected true (some (s, b)) reason h = ground arith
answered_in_time-not_rejected false answer reason h = cc

module _ (f : DelegatedFacilitator) (post : (url : String) → Value → Exchange) where
  abbrev pub asked : (url : String) → PaymentPayload → PaymentRequirements → Exchange
  asked url payment requirements = post url (facilitator_request payment requirements)

  round_trip-IsWithin :
      (url : String) (payment : PaymentPayload) (requirements : PaymentRequirements) {status : ℕ}
      {body : List ℕ}
      → round_trip f post url payment requirements ≡ ok (status, body)
      → IsWithin f (asked url payment requirements) status body
  round_trip-IsWithin url payment requirements h =
      let exchange = asked url payment requirements in
      let (early, answered, bounded) =
        answered_in_time-eq-ok (leb exchange.took f.timeout) exchange.answer h in
      record { in_time = ground arith; answered = answered; bounded = bounded }

  -- A verdict on a payment stands on an answer that came whole and within the deadline: it is
  -- accepted only on a 2xx or 4xx one that says `isValid: true`, and blamed on the client only on
  -- such a one that says `isValid: false` for a reason that is not the gateway's fault; the reason
  -- that is passed on is not empty and at most 128 bytes.
  pub verify_payment-verdict :
      (from_slice : List ℕ → Option VerifyResponse) (payment : PaymentPayload)
      (requirements : PaymentRequirements)
      → (verify_payment f post from_slice payment requirements ≡ ok tt
          → (status : ℕ) × (body : List ℕ) × IsWithin f
              (asked f.verify_url payment requirements)
              status
              body
            × Accepted status (from_slice body))
        × ((reason : String)
            → verify_payment f post from_slice payment requirements ≡ err (rejected reason)
            → (status : ℕ) × (body : List ℕ) × IsWithin f
                (asked f.verify_url payment requirements)
                status
                body
              × Refused status (from_slice body)
              × IsBounded reason)
  unfolding verify_payment
  verify_payment-verdict from_slice payment requirements = (
    (λ h.
        let ((status, body), answered, h1) =
          >>=-eq-ok (round_trip f post f.verify_url payment requirements) _ h in
        (
          status,
          body,
          round_trip-IsWithin f.verify_url payment requirements answered,
          (verify-verdict status (from_slice body)).0 h1,
        )),
    (λ reason h.
        let ((status, body), answered, h1) =
          >>=-eq-err (round_trip f post f.verify_url payment requirements) _ h (
            answered_in_time-not_rejected
              (leb (asked f.verify_url payment requirements).took f.timeout)
              (asked f.verify_url payment requirements).answer reason) in
        let (refused, bounded) = (verify-verdict status (from_slice body)).1 reason h1 in
        (
          status,
          body,
          round_trip-IsWithin f.verify_url payment requirements answered,
          refused,
          bounded,
        )),
  )

  -- A receipt stands on a 2xx or 4xx answer that came whole and within the deadline. A receipt of
  -- success is for one that says `success: true`, and has its hash, payer and amount, and its network,
  -- else the payment's. A receipt of a failure is for one that says `success: false` for a reason that
  -- is neither a pending settlement nor the gateway's fault; its reason is the one that was sent or a
  -- stock one, not empty and at most 128 bytes, its hash the one that was sent if that is plausible,
  -- and it names no payer.
  pub settle_payment-Evidenced :
      (from_slice : List ℕ → Option SettleResponse) (payment : PaymentPayload)
      (requirements : PaymentRequirements) {receipt : SettlementReceipt}
      → settle_payment f post from_slice payment requirements ≡ ok receipt
      → (status : ℕ) × (body : List ℕ) × IsWithin f
          (asked f.settle_url payment requirements)
          status
          body
        × Evidenced payment status (from_slice body) receipt
  unfolding settle_payment
  settle_payment-Evidenced from_slice payment requirements h =
      let ((status, body), answered, h1) =
        >>=-eq-ok (round_trip f post f.settle_url payment requirements) _ h in
      (
        status,
        body,
        round_trip-IsWithin f.settle_url payment requirements answered,
        settle-receipt payment status (from_slice body) _ h1,
      )
