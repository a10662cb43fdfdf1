-- ===== src/Devseller.antt =====
-- The development seller's own reading of an `exact` payment on an EVM chain: the errors and the
-- payload of devseller/src/verify.rs; Start and Sources have what its `main` starts. A message's text is made
-- from its error and not modelled.
pub mod Verify
pub mod Modes
pub mod Facilitator
pub mod Judged
pub mod Sources
pub mod Start
pub mod Guards
pub mod Harmless
mod Tests
use Prim.Native.Char.{code}
use obolus.Prelude.{ℕ, String, Option, none, some, leb, and_then, ◌==◌, if◌then◌else◌}
use obolus.Prelude.Results.{Result, ok, err, ◌>>=◌}
use obolus.Amount.{parse_u128}
use obolus.Json.{Value, number, get, as_str}
use obolus.Payment.Codec.{Bytes}
use obolus.Pricing.{u64_max}
use obolus.Eip3009.{Crypto, Eip3009Error, Eip712Domain, Authorization, decode_hex, decode_hex_array}

-- A payload that has been decoded.
pub record ExactPayload : Type 0 where
  pub authorization : Authorization
  pub signature : Bytes

pub data VerifyError : Type 0 where
  missing numeric_uint : (key : String) → VerifyError
  -- The number that does not fit, or the text that is none.
  bad_uint : (key : String) → VerifyError
  bad_hex_field : (key : String) → Eip3009Error → VerifyError
  unusable_asset : (asset : String) → VerifyError
  unusable_pay_to : (pay_to : String) → VerifyError
  unusable_network : (network : String) → VerifyError
  missing_token_domain : (network : String) → (key : String) → VerifyError
  scheme_mismatch network_mismatch : (got : String) → (want : String) → VerifyError
  wrong_payee : (got : Bytes) → (want : Bytes) → VerifyError
  amount_mismatch : (got : ℕ) → (want : ℕ) → VerifyError
  not_recovered : (expected : Bytes) → (recovered : Bytes) → Eip712Domain → VerifyError
  unusable_signature : Eip3009Error → Eip712Domain → VerifyError
  not_yet_valid : (valid_after : ℕ) → (now : ℕ) → VerifyError
  expired : (valid_before : ℕ) → (now : ℕ) → VerifyError

-- `ok_or` and `map_err`.
abbrev pub or_missing : {A : Type 0} → (key : String) → Option A → Result VerifyError A
or_missing key none = err (missing key)
or_missing key (some a) = ok a

abbrev pub or_bad_uint : (key : String) → Option ℕ → Result VerifyError ℕ
or_bad_uint key none = err (bad_uint key)
or_bad_uint key (some n) = ok n

abbrev pub or_bad_field : (key : String) → Result Eip3009Error Bytes → Result VerifyError Bytes
or_bad_field key (ok bytes) = ok bytes
or_bad_field key (err why) = err (bad_hex_field key why)

abbrev pub hex_string : Value → (key : String) → Result VerifyError String
hex_string json key = or_missing key (and_then (get key json) as_str)

-- `uint_field`, on what the key holds.
abbrev pub uint_of : (key : String) → Option Value → Result VerifyError ℕ
uint_of key none = err (missing key)
uint_of key (some (number n)) = err (numeric_uint key)
uint_of key (some value) = or_missing key (as_str value) >>= λ raw. or_bad_uint key (parse_u128 raw)

abbrev pub uint_field : Value → (key : String) → Result VerifyError ℕ
uint_field json key = uint_of key (get key json)

abbrev pub window_field : Value → (key : String) → Result VerifyError ℕ
window_field json key =
    uint_field json key >>= λ raw. if leb raw u64_max then ok raw else err (bad_uint key)

module _ (crypto : Crypto) where
  abbrev pub hex_field : (n : ℕ) → Value → (key : String) → Result VerifyError Bytes
  hex_field n json key =
      hex_string json key >>= λ raw. or_bad_field key (decode_hex_array crypto n raw)

  abbrev pub authorization_of : Value → Result VerifyError Authorization
  authorization_of auth = hex_field 20 auth "from" >>= λ from. hex_field 20 auth "to" >>= λ to.
      uint_field auth "value" >>= λ value. window_field auth "validAfter" >>= λ valid_after.
      window_field auth "validBefore" >>= λ valid_before. hex_field 32 auth "nonce" >>= λ nonce.
      ok (record {
        from = from;
        to = to;
        value = value;
        valid_after = valid_after;
        valid_before = valid_before;
        nonce = nonce;
      })

  unfoldable pub parse_exact_payload : Value → Result VerifyError ExactPayload
  parse_exact_payload payload = or_missing "authorization" (get "authorization" payload) >>= λ auth.
      authorization_of auth >>= λ authorization. hex_string payload "signature" >>= λ raw.
      or_bad_field "signature" (decode_hex crypto raw) >>= λ signature.
      ok (record { authorization = authorization; signature = signature })
