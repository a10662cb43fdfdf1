-- ===== src/Facilitator.antt =====
-- What obolus/src/facilitator.rs makes of a facilitator's answer. The HTTP round trip is other
-- people's code: its status and body, read as JSON, are arguments.
pub mod Verdicts
pub mod Receipts
pub mod Delegated
pub mod Exchange
mod Tests
use Prim.Native.Char.{code}
use Prim.Native.String
use obolus.Prelude.{
  ℕ, zero, suc, String, Bool, true, false, ◌&&◌, ◌||◌, not, Option, none, some, List, [], ◌∷◌, all,
  any, codes, find, filter_option, unwrap_or, and_then, is_empty, is_some, leb, ltb, ◌==◌, str_eq,
  byte_len, is_ascii_digit, is_ascii_lower, is_ascii_upper, if◌then◌else◌,
}
use obolus.Prelude.Results.{Result, ok, err}
use obolus.Payment.{PaymentPayload, SettlementReceipt}

-- What `Unavailable` reports; the message is made from it.
pub data Outage : Type 0 where
  -- The request could not be made, or not in time.
  unreachable : Outage
  non_verdict unparseable no_verdict : (status : ℕ) → Outage
  on_our_side : (reason : String) → (status : ℕ) → (hash : Option String) → Outage
  pending : (hash : Option String) → (network : String) → Outage

pub data FacilitatorError : Type 0 where
  rejected : String → FacilitatorError
  unavailable : Outage → FacilitatorError

pub record VerifyResponse : Type 0 where
  pub is_valid : Option Bool
  pub invalid_reason : Option String

pub record SettleResponse : Type 0 where
  pub success : Option Bool
  pub error_reason : Option String
  pub payer : Option String
  pub transaction : Option String
  pub network : Option String
  pub amount : Option String

abbrev pub settlement_pending : String
settlement_pending = "settlement_pending"

abbrev pub our_fault_reasons : List String
our_fault_reasons =
    "invalid_scheme" ∷ "invalid_network" ∷ "invalid_payment_requirements" ∷ "unsupported_scheme"
    ∷ "invalid_x402_version" ∷ "unexpected_verify_error" ∷ "unexpected_settle_error"
    ∷ "invalid_json" ∷ "missing_parameters" ∷ "unexpected_error" ∷ "invalid_exact_evm_scheme"
    ∷ "invalid_exact_evm_network_mismatch" ∷ "invalid_exact_evm_missing_eip712_domain"
    ∷ "invalid_exact_evm_token_name_mismatch" ∷ "invalid_exact_evm_token_version_mismatch"
    ∷ "invalid_exact_evm_eip3009_not_supported" ∷ "asset_not_deployed_contract"
    ∷ "invalid_exact_evm_failed_to_get_network_config"
    ∷ "invalid_exact_evm_failed_to_parse_signature" ∷ "invalid_exact_evm_required_amount" ∷ []

unfoldable pub our_fault : Option String → Option String
our_fault reason = and_then reason λ r. find (λ known. str_eq known r) our_fault_reasons

abbrev pub max_reject_reason_len : ℕ
max_reject_reason_len = 128

abbrev pub max_tx_hash_len : ℕ
max_tx_hash_len = 128

abbrev pub non_empty : Option String → Option String
non_empty value = filter_option (λ s. not (is_empty s)) value

unfoldable pub reject_reason : Option String → (fallback : String) → String
reject_reason none fallback = fallback
reject_reason (some reason) fallback =
    if not (is_empty reason) && leb (byte_len reason) max_reject_reason_len
    then reason
    else fallback

-- A letter, a digit or one of `.@-_+/=`. A byte of a longer character is none of them.
abbrev pub plausible : ℕ → Bool
plausible c =
    is_ascii_digit c
    || is_ascii_lower c
    || is_ascii_upper c
    || any (λ p. p == c) (46 ∷ 64 ∷ 45 ∷ 95 ∷ 43 ∷ 47 ∷ 61 ∷ [])

abbrev pub hash_or_empty : Option String → String
hash_or_empty none = ""
hash_or_empty (some hash) =
    if leb (byte_len hash) max_tx_hash_len && all plausible (codes hash) then hash else ""

unfoldable pub broadcast_hash : Option String → String
broadcast_hash transaction = hash_or_empty (non_empty transaction)

-- `chars().take(k).collect()`.
unfoldable pub take_chars : ℕ → String → String
take_chars zero s = ""
take_chars (suc k) String.[] = ""
take_chars (suc k) (String.◌∷◌ c s) = String.◌∷◌ c (take_chars k s)

unfoldable pub logged_hash : Option String → Option String
unfolding take_chars
logged_hash transaction =
    and_then (non_empty transaction) λ hash. some (take_chars max_tx_hash_len hash)

abbrev pub is_success : (status : ℕ) → Bool
is_success status = leb 200 status && ltb status 300

abbrev pub is_client_error : (status : ℕ) → Bool
is_client_error status = leb 400 status && ltb status 500

abbrev pub is_verdict : (status : ℕ) → Bool
is_verdict status = is_success status || is_client_error status

-- The match on `is_valid`, by what `our_fault` says of the reason.
abbrev pub answer_verify :
    (is_valid : Option Bool)
    → (blames_us : Option String) → (invalid_reason : Option String) → (status : ℕ)
    → Result FacilitatorError (Unit {0})
answer_verify (some true) blames_us invalid_reason status = ok tt
answer_verify (some false) (some reason) invalid_reason status =
    err (unavailable (on_our_side reason status none))
answer_verify (some false) none invalid_reason status =
    err (rejected (reject_reason invalid_reason "payment verification failed"))
answer_verify none blames_us invalid_reason status = err (unavailable (no_verdict status))

abbrev pub read_verify : (status : ℕ) → Option VerifyResponse → Result FacilitatorError (Unit {0})
read_verify status none = err (unavailable (unparseable status))
read_verify status (some parsed) =
    answer_verify parsed.is_valid (our_fault parsed.invalid_reason) parsed.invalid_reason status

-- `verify` after its round trip.
unfoldable pub verify : (status : ℕ) → Option VerifyResponse → Result FacilitatorError (Unit {0})
verify status body =
    if not (is_verdict status)
    then err (unavailable (non_verdict status))
    else read_verify status body

abbrev pub network_of : PaymentPayload → SettleResponse → String
network_of payment parsed = unwrap_or (non_empty parsed.network) payment.accepted.network

abbrev pub is_pending : Option String → Bool
is_pending none = false
is_pending (some reason) = str_eq reason settlement_pending

-- The receipt of a definite refusal.
abbrev pub refusal_receipt : PaymentPayload → SettleResponse → SettlementReceipt
refusal_receipt payment parsed = record {
  success = false;
  error_reason = some (reject_reason parsed.error_reason "settlement did not complete");
  transaction = broadcast_hash parsed.transaction;
  network = network_of payment parsed;
  payer = none;
  amount = none;
}

-- The arms of a settlement that did not complete.
abbrev pub answer_refusal :
    (still_pending : Bool)
    → (blames_us : Option String) → PaymentPayload
    → (status : ℕ) → SettleResponse
    → Result FacilitatorError SettlementReceipt
answer_refusal true blames_us payment status parsed =
    err (unavailable (pending (logged_hash parsed.transaction) (network_of payment parsed)))
answer_refusal false (some reason) payment status parsed =
    err (unavailable (on_our_side reason status (logged_hash parsed.transaction)))
answer_refusal false none payment status parsed = ok (refusal_receipt payment parsed)

abbrev pub success_receipt : PaymentPayload → SettleResponse → SettlementReceipt
success_receipt payment parsed = record {
  success = true;
  error_reason = none;
  transaction = unwrap_or parsed.transaction "";
  network = network_of payment parsed;
  payer = non_empty parsed.payer;
  amount = non_empty parsed.amount;
}

abbrev pub answer_settle :
    (success : Option Bool)
    → PaymentPayload
    → (status : ℕ) → SettleResponse
    → Result FacilitatorError SettlementReceipt
answer_settle (some true) payment status parsed = ok (success_receipt payment parsed)
answer_settle (some false) payment status parsed =
    answer_refusal (is_pending parsed.error_reason) (our_fault parsed.error_reason) payment status
      parsed
answer_settle none payment status parsed = err (unavailable (no_verdict status))

abbrev pub read_settle :
    PaymentPayload
    → (status : ℕ) → Option SettleResponse
    → Result FacilitatorError SettlementReceipt
read_settle payment status none = err (unavailable (unparseable status))
read_settle payment status (some parsed) = answer_settle parsed.success payment status parsed

-- `settle` after its round trip.
unfoldable pub settle :
    PaymentPayload
    → (status : ℕ) → Option SettleResponse
    → Result FacilitatorError SettlementReceipt
settle payment status body =
    if not (is_verdict status)
    then err (unavailable (non_verdict status))
    else read_settle payment status body
