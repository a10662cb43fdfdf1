-- ===== src/Facilitator/Tests.antt =====
-- Concrete answers of a facilitator.
use obolus.Prelude.{ℕ, String, ◌≡◌, ◌≢◌, refl, Bool, true, false, Option, none, some, List, [], ◌∷◌}
use obolus.Prelude.Results.{ok, err}
use obolus.Payment.{SettlementReceipt}
use obolus.Fixtures.{base_payment}
use obolus.Facilitator.{
  rejected, unavailable, unreachable, non_verdict, VerifyResponse, SettleResponse, verify, settle,
}
use obolus.Facilitator.Receipts.{Evidenced}
use obolus.Facilitator.Verdicts.{Accepted, Refused, IsBounded}
use obolus.Backends.{trim_slashes}
use obolus.Backends.Build.{is_http}
use obolus.Json.{Value}
use obolus.Facilitator.Delegated.{
  DelegatedFacilitator, Exchange, tls_not_wired, new_facilitator, settle_payment, verify_payment,
}
use obolus.Facilitator.Exchange.{IsWithin, asked, verify_payment-verdict, settle_payment-Evidenced}

abbrev refusal : VerifyResponse
refusal = record { is_valid = some false; invalid_reason = some "insufficient_funds" }

funds_refused : verify 400 (some refusal) ≡ err (rejected "insufficient_funds")
unfolding verify obolus.Facilitator.our_fault obolus.Facilitator.reject_reason
    obolus.Prelude.byte_len
funds_refused = refl

-- A verdict on a 5xx is no verdict.
outage :
    verify 503 (some (record { is_valid = some true; invalid_reason = none }))
    ≡ err (unavailable (non_verdict 503))
unfolding verify
outage = refl

abbrev reverted : SettleResponse
reverted = record {
  success = some false;
  error_reason = some "invalid_transaction_state";
  payer = some "0xPAYER";
  transaction = some "0xREVERTED";
  network = none;
  amount = none;
}

abbrev failure : SettlementReceipt
failure = record {
  success = false;
  error_reason = some "invalid_transaction_state";
  transaction = "0xREVERTED";
  network = "eip155:84532";
  payer = none;
  amount = none;
}

revert_told : settle base_payment 200 (some reverted) ≡ ok failure
unfolding settle obolus.Facilitator.our_fault obolus.Facilitator.reject_reason
    obolus.Facilitator.broadcast_hash obolus.Prelude.byte_len
revert_told = refl

abbrev facilitator : DelegatedFacilitator
facilitator = record {
  verify_url = "http://facilitator/base/verify";
  settle_url = "http://facilitator/base/settle";
  timeout = 30;
}

-- A slash at the end is not kept.
rooted : new_facilitator "http://facilitator/base/" ≡ ok facilitator
unfolding new_facilitator trim_slashes is_http
rooted = refl

no_tls : new_facilitator "HTTPS://facilitator" ≡ err (tls_not_wired "HTTPS://facilitator")
unfolding new_facilitator trim_slashes
no_tls = refl

-- The reverted settlement is told in the last second that is left.
abbrev telling : String → Value → Exchange
telling url body = record { answer = some (200, 123 ∷ 125 ∷ []); took = 30 }

told :
    settle_payment facilitator telling (λ b. some reverted) base_payment base_payment.accepted
    ≡ ok failure
unfolding settle_payment settle obolus.Facilitator.our_fault obolus.Facilitator.reject_reason
    obolus.Facilitator.broadcast_hash obolus.Prelude.byte_len
told = refl

settle_payment-Evidenced_example :
    (status : ℕ) × (body : List ℕ) × IsWithin facilitator
      (asked facilitator telling facilitator.settle_url base_payment base_payment.accepted)
      status
      body
    × Evidenced base_payment status (some reverted) failure
settle_payment-Evidenced_example =
    settle_payment-Evidenced facilitator telling (λ b. some reverted) base_payment
      base_payment.accepted told

-- One second later it is an outage.
late :
    settle_payment
      (record facilitator { timeout = 29 })
      telling
      (λ b. some reverted)
      base_payment
      base_payment.accepted
    ≡ err (unavailable unreachable)
unfolding settle_payment
late = refl

verify_payment-verdict_example :
    (verify_payment facilitator telling (λ b. some refusal) base_payment base_payment.accepted
        ≡ ok tt
      → (status : ℕ) × (body : List ℕ) × IsWithin facilitator
          (asked facilitator telling facilitator.verify_url base_payment base_payment.accepted)
          status
          body
        × Accepted status (some refusal))
    × ((reason : String)
        → verify_payment facilitator telling (λ b. some refusal) base_payment base_payment.accepted
          ≡ err (rejected reason)
        → (status : ℕ) × (body : List ℕ) × IsWithin facilitator
            (asked facilitator telling facilitator.verify_url base_payment base_payment.accepted)
            status
            body
          × Refused status (some refusal)
          × IsBounded reason)
verify_payment-verdict_example =
    verify_payment-verdict facilitator telling (λ b. some refusal) base_payment
      base_payment.accepted
