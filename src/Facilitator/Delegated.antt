-- ===== src/Facilitator/Delegated.antt =====
-- `DelegatedFacilitator` of obolus/src/facilitator.rs: where it posts, how long it waits, and what it
-- asks. The HTTP client is other people's code: an exchange is what it ends in.
use Prim.Native.String.{◌++◌ as text_append}
use obolus.Prelude.{
  ℕ, ◌*◌, String, Bool, true, false, not, Option, none, some, codes, lower, map, leb, length, List,
  if◌then◌else◌,
}
use obolus.Prelude.Results.{Result, ok, err, ◌>>=◌}
use obolus.Json.{Value, number, unsigned, object, end, field}
use obolus.Payment.{
  PaymentRequirements, PaymentPayload, SettlementReceipt, x402_version_spoken, to_fields,
}
use obolus.Backends.{trim_slashes}
use obolus.Backends.Build.{is_prefix, is_http}
use obolus.Facilitator.{
  FacilitatorError, unavailable, unreachable, VerifyResponse, SettleResponse, verify, settle,
}

pub data DelegatedFacilitatorError : Type 0 where
  tls_not_wired not_an_http_base : (base : String) → DelegatedFacilitatorError

-- A timeout is in seconds.
pub record DelegatedFacilitator : Type 0 where
  pub verify_url : String
  pub settle_url : String
  pub timeout : ℕ

abbrev pub default_facilitator_timeout : ℕ
default_facilitator_timeout = 30

abbrev pub is_https : String → Bool
is_https base = is_prefix (codes "https://") (map lower (codes base))

abbrev pub rooted_at : (base : String) → Result DelegatedFacilitatorError DelegatedFacilitator
rooted_at base =
    if is_https base
    then err (tls_not_wired base)
    else if not (is_http base)
    then err (not_an_http_base base)
    else ok (record {
      verify_url = text_append base "/verify";
      settle_url = text_append base "/settle";
      timeout = default_facilitator_timeout;
    })

unfoldable pub new_facilitator :
    (base_url : String) → Result DelegatedFacilitatorError DelegatedFacilitator
new_facilitator base_url = rooted_at (trim_slashes base_url)

abbrev pub with_timeout : ℕ → DelegatedFacilitator → DelegatedFacilitator
with_timeout timeout f = record f { timeout = timeout }

-- `FacilitatorRequest`, as it is written: the payment as it was received.
unfoldable pub facilitator_request : PaymentPayload → PaymentRequirements → Value
facilitator_request payment requirements = object (
    field "paymentPayload" payment.received (
      field "paymentRequirements" (object (to_fields requirements))
        (field "x402Version" (number (unsigned x402_version_spoken)) end)))

-- An exchange with the facilitator: the status and the body that it ends in, where the connection
-- held, and after how many seconds.
pub record Exchange : Type 0 where
  pub answer : Option (ℕ × List ℕ)
  pub took : ℕ

abbrev pub max_facilitator_response_bytes : ℕ
max_facilitator_response_bytes = 64 * 1024

-- `to_bytes`, which refuses a body beyond its limit.
abbrev pub read_whole : Option (ℕ × List ℕ) → Result FacilitatorError (ℕ × List ℕ)
read_whole none = err (unavailable unreachable)
read_whole (some (status, body)) =
    if leb (length body) max_facilitator_response_bytes
    then ok (status, body)
    else err (unavailable unreachable)

abbrev pub answered_in_time :
    (in_time : Bool) → Option (ℕ × List ℕ) → Result FacilitatorError (ℕ × List ℕ)
answered_in_time true answer = read_whole answer
answered_in_time false answer = err (unavailable unreachable)

-- `round_trip`: one deadline over the whole of it.
module _ (f : DelegatedFacilitator) (post : (url : String) → Value → Exchange) where
  abbrev pub round_trip :
      (url : String) → PaymentPayload → PaymentRequirements → Result FacilitatorError (ℕ × List ℕ)
  round_trip url payment requirements =
      let exchange = post url (facilitator_request payment requirements) in
      answered_in_time (leb exchange.took f.timeout) exchange.answer

  unfoldable pub verify_payment :
      (from_slice : List ℕ → Option VerifyResponse)
      → PaymentPayload
      → PaymentRequirements
      → Result FacilitatorError (Unit {0})
  unfolding facilitator_request
  verify_payment from_slice payment requirements =
      round_trip f.verify_url payment requirements >>= λ answer.
      verify answer.0 (from_slice answer.1)

  unfoldable pub settle_payment :
      (from_slice : List ℕ → Option SettleResponse)
      → PaymentPayload
      → PaymentRequirements
      → Result FacilitatorError SettlementReceipt
  unfolding facilitator_request
  settle_payment from_slice payment requirements =
      round_trip f.settle_url payment requirements >>= λ answer.
      settle payment answer.0 (from_slice answer.1)
