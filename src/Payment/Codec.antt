-- ===== src/Payment/Codec.antt =====
-- The header codec: `decode_base64` and `decode` of obolus/src/x402.rs, `check_version`,
-- `encode_payment` and `decode_payment` of obolus/src/x402/v2.rs. The base64 engines, the JSON
-- reader and writer and the derived reader of an option are other people's code: a parameter.
pub mod RoundTrip
use obolus.Prelude.{
  ℕ, ◌^◌, String, Bool, true, false, Option, none, some, List, ltb, ◌==◌, and_then, or_else, trim,
  is_some, if◌then◌else◌,
}
use obolus.Prelude.Results.{Result, ok, err, ◌>>=◌, ◌>>◌, ok_or}
use obolus.Json.{Value, get, as_u64, as_object}
use obolus.Payment.{PaymentRequirements, PaymentPayload, x402_version_spoken}

abbrev pub Bytes : Type 0
Bytes = List ℕ

pub record Engines : Type 0 where
  pub standard : String → Option Bytes
  pub standard_no_pad : String → Option Bytes
  pub url_safe : String → Option Bytes
  pub url_safe_no_pad : String → Option Bytes
  pub encode : Bytes → String
  pub from_slice : Bytes → Option Value
  pub to_vec : Value → Bytes
  -- `serde_json::from_value` at an option.
  pub typed : Value → Option PaymentRequirements

-- Each message of the codec is a constructor with what it names.
pub data CodecError : Type 0 where
  base64 not_json no_version : CodecError
  version_out_of_range : ℕ → CodecError
  unsupported_version : (found : ℕ) → (expected : ℕ) → CodecError
  no_accepted untyped_accepted payload_not_an_object : CodecError

unfoldable pub check_version : Value → Result CodecError (Unit {0})
check_version envelope = do
  found ← ok_or (and_then (get "x402Version" envelope) as_u64) no_version
  if ltb found 256
      then (if found == x402_version_spoken
          then ok tt
          else err (unsupported_version found x402_version_spoken))
      else err (version_out_of_range found)

module _ (e : Engines) where
  unfoldable pub decode_base64 : String → Option Bytes
  decode_base64 raw =
      or_else (e.standard raw)
        (or_else (e.standard_no_pad raw) (or_else (e.url_safe raw) (e.url_safe_no_pad raw)))

  unfoldable pub decode : String → Result CodecError Value
  unfolding decode_base64
  decode raw = do
    bytes ← ok_or (decode_base64 (trim raw)) base64
    ok_or (e.from_slice bytes) not_json

  -- `encode_payment`: the envelope as held.
  unfoldable pub encode_payment : PaymentPayload → String
  encode_payment payment = e.encode (e.to_vec payment.received)

  -- `decode_payment` after the header is read.
  unfoldable pub from_envelope : Value → Result CodecError PaymentPayload
  unfolding check_version
  from_envelope received = do
    check_version received
    accepted ← ok_or (get "accepted" received) no_accepted
    typed ← ok_or (e.typed accepted) untyped_accepted
    if is_some (and_then (get "payload" received) as_object)
        then ok (record { accepted = typed; received = received })
        else err payload_not_an_object

  unfoldable pub decode_payment : String → Result CodecError PaymentPayload
  unfolding decode from_envelope
  decode_payment raw = do received ← decode raw; from_envelope received
