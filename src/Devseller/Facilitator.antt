-- ===== src/Devseller/Facilitator.antt =====
-- `DevFacilitator` of devseller/src/facilitator.rs.
use Prim.Native.String.{◌++◌ as text_append}
use obolus.Prelude.{
  ℕ, zero, suc, ◌-◌, ◌/◌, ◌%◌, String, Bool, true, false, none, some, [], ◌∷◌, ltb, unwrap_or,
  if◌then◌else◌,
}
use obolus.Prelude.Results.{Result, ok, err, ◌>>=◌, ◌>>◌}
use Prim.Native.Char.{Char}
use obolus.Amount.{digit}
use obolus.Json.{Value, null, get}
use obolus.Payment.{PaymentRequirements, PaymentPayload, SettlementReceipt}
use obolus.Payment.Codec.{Bytes}
use obolus.Eip3009.{Crypto}
use obolus.Devseller.{VerifyError, ExactPayload, parse_exact_payload}
use obolus.Devseller.Verify.{check_terms, check_window, domain_for, verify_signature}
use obolus.Devseller.Modes.{
  VerifyMode, verify_offline, accept_all, reject_all, SettleMode, succeed, unsuccessful,
  empty_receipt, settle_unavailable_for, settle_rejected_for, time_out,
}

-- A `Rejected`, by its error or its configured reason, or an `Unavailable`.
pub data DevFacilitatorError : Type 0 where
  refused : VerifyError → DevFacilitatorError
  rejected_as unavailable_as : (reason : String) → DevFacilitatorError
  timed_out : (secs : ℕ) → DevFacilitatorError

pub record DevFacilitator : Type 0 where
  pub verify : VerifyMode
  pub settle : SettleMode
  -- What the clock reads.
  pub now : ℕ

abbrev pub synthetic_transaction : String
synthetic_transaction = "0xDEV-SELLER-NOTHING-SETTLED-NOT-A-REAL-TRANSACTION"

abbrev pub unknown_payer : String
unknown_payer = "0xDEV-SELLER-PAYER-NOT-VERIFIED"

-- `PaymentPayload::payload`.
abbrev pub payload_of : PaymentPayload → Value
payload_of payment = unwrap_or (get "payload" payment.received) null

-- The letters of the digits from 10 to 15.
abbrev pub hex_letter : ℕ → Char
hex_letter zero = "a"
hex_letter (suc zero) = "b"
hex_letter (suc (suc zero)) = "c"
hex_letter (suc (suc (suc zero))) = "d"
hex_letter (suc (suc (suc (suc zero)))) = "e"
hex_letter _ = "f"

unfoldable pub hex_digit : ℕ → Char
unfolding digit
hex_digit n = if ltb n 10 then digit n else hex_letter (n - 10)

unfoldable pub hex_bytes : Bytes → String
unfolding hex_digit
hex_bytes [] = ""
hex_bytes (b ∷ bytes) =
    String.◌∷◌ (hex_digit (b / 16)) (String.◌∷◌ (hex_digit (b % 16)) (hex_bytes bytes))

-- `render_address`.
abbrev pub render_address : Bytes → String
render_address address = text_append "0x" (hex_bytes address)

abbrev pub judged : Result VerifyError (Unit {0}) → Result DevFacilitatorError (Unit {0})
judged (ok _) = ok tt
judged (err why) = err (refused why)

abbrev pub receipt_of : (network : String) → (payer : String) → (success : Bool) → SettlementReceipt
receipt_of network payer success = record {
  success = success;
  error_reason = none;
  transaction = synthetic_transaction;
  network = network;
  payer = some payer;
  amount = none;
}

abbrev pub named_payer : Result VerifyError ExactPayload → String
named_payer (ok payload) = render_address payload.authorization.from
named_payer (err _) = unknown_payer

module _ (crypto : Crypto) where
  unfoldable pub judge :
      (now : ℕ) → PaymentPayload → PaymentRequirements → Result VerifyError (Unit {0})
  unfolding parse_exact_payload check_terms check_window domain_for verify_signature
  judge now payment r = parse_exact_payload crypto (payload_of payment) >>= λ payload.
      check_terms crypto payment payload r
      >> (check_window payload.authorization now
          >> (domain_for crypto r >>= λ domain. verify_signature crypto payload domain))

  abbrev pub verify_by :
      VerifyMode
      → (now : ℕ) → PaymentPayload
      → PaymentRequirements
      → Result DevFacilitatorError (Unit {0})
  verify_by accept_all now payment r = ok tt
  verify_by (reject_all reason) now payment r = err (rejected_as reason)
  verify_by verify_offline now payment r = judged (judge now payment r)

  unfoldable pub dev_verify :
      DevFacilitator → PaymentPayload → PaymentRequirements → Result DevFacilitatorError (Unit {0})
  unfolding judge
  dev_verify f payment r = verify_by f.verify f.now payment r

  unfoldable pub payer_of : VerifyMode → PaymentPayload → String
  payer_of verify_offline payment = named_payer (parse_exact_payload crypto (payload_of payment))
  payer_of _ payment = unknown_payer

  abbrev pub settle_by :
      SettleMode
      → (payer : String) → PaymentRequirements
      → Result DevFacilitatorError SettlementReceipt
  settle_by succeed payer r = ok (receipt_of r.network payer true)
  settle_by unsuccessful payer r = ok (receipt_of r.network payer false)
  settle_by empty_receipt payer r = ok (record {
    success = true;
    error_reason = none;
    transaction = "";
    network = "";
    payer = none;
    amount = none;
  })
  settle_by (settle_unavailable_for reason) payer r = err (unavailable_as reason)
  settle_by (settle_rejected_for reason) payer r = err (rejected_as reason)
  settle_by (time_out secs) payer r = err (timed_out secs)

  unfoldable pub dev_settle :
      DevFacilitator
      → PaymentPayload
      → PaymentRequirements
      → Result DevFacilitatorError SettlementReceipt
  unfolding payer_of
  dev_settle f payment r = settle_by f.settle (payer_of f.verify payment) r
