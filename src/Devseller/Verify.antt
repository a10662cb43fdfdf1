-- ===== src/Devseller/Verify.antt =====
-- The three checks of devseller/src/verify.rs, and the domain that a signature is checked under.
use Prim.Native.Char.{code}
use obolus.Prelude.{
  ℕ, String, not, Option, none, some, and_then, filter_option, is_empty, leb, trim, str_eq, ◌==◌,
  if◌then◌else◌,
}
use obolus.Prelude.Results.{Result, ok, err, ◌>>=◌, ◌>>◌}
use obolus.Amount.{parse_u128}
use obolus.Json.{get, as_str}
use obolus.Payment.{PaymentRequirements, PaymentPayload}
use obolus.Payment.Codec.{Bytes}
use obolus.Pricing.{u64_max}
use obolus.Config.Pricing.{parse_up_to}
use obolus.Access.KeySet.{bytes_eq}
use obolus.Eip3009.{
  Crypto, Eip3009Error, Eip712Domain, Authorization, decode_hex_array, transfer_digest,
  recover_address,
}
use obolus.Devseller.{
  VerifyError, ExactPayload, unusable_asset, unusable_pay_to, unusable_network,
  missing_token_domain, scheme_mismatch, network_mismatch, wrong_payee, amount_mismatch,
  not_recovered, unusable_signature, not_yet_valid, expired, or_bad_uint,
}

-- `str::strip_prefix`.
unfoldable pub strip_prefix : (prefix : String) → String → Option String
strip_prefix String.[] s = some s
strip_prefix (String.◌∷◌ p prefix) String.[] = none
strip_prefix (String.◌∷◌ p prefix) (String.◌∷◌ c s) =
    let rest = strip_prefix prefix s in if code p == code c then rest else none

abbrev pub or_unusable_network : (network : String) → Option ℕ → Result VerifyError ℕ
or_unusable_network network none = err (unusable_network network)
or_unusable_network network (some chain_id) = ok chain_id

unfoldable pub chain_id_of : (network : String) → Result VerifyError ℕ
unfolding strip_prefix
chain_id_of network =
    or_unusable_network network (and_then (strip_prefix "eip155:" network) (parse_up_to u64_max))

abbrev pub or_missing_domain :
    (network : String) → (key : String) → Option String → Result VerifyError String
or_missing_domain network key none = err (missing_token_domain network key)
or_missing_domain network key (some value) = ok value

abbrev pub token_field : PaymentRequirements → (key : String) → Result VerifyError String
token_field r key = or_missing_domain r.network key (
    filter_option (λ value. not (is_empty (trim value)))
      (and_then (and_then r.extra (get key)) as_str))

-- `map_err`, for the two addresses of an option.
abbrev pub or_refused : VerifyError → Result Eip3009Error Bytes → Result VerifyError Bytes
or_refused why (ok address) = ok address
or_refused why (err _) = err why

abbrev pub or_unusable_signature :
    Eip712Domain → Result Eip3009Error Bytes → Result VerifyError Bytes
or_unusable_signature domain (ok address) = ok address
or_unusable_signature domain (err why) = err (unusable_signature why domain)

abbrev pub check_scheme : (got : String) → (want : String) → Result VerifyError (Unit {0})
check_scheme got want = if str_eq got want then ok tt else err (scheme_mismatch got want)

abbrev pub check_network : (got : String) → (want : String) → Result VerifyError (Unit {0})
check_network got want = if str_eq got want then ok tt else err (network_mismatch got want)

abbrev pub check_payee : (got : Bytes) → (want : Bytes) → Result VerifyError (Unit {0})
check_payee got want = if bytes_eq got want then ok tt else err (wrong_payee got want)

abbrev pub check_amount : (got : ℕ) → (want : ℕ) → Result VerifyError (Unit {0})
check_amount got want = if got == want then ok tt else err (amount_mismatch got want)

unfoldable pub check_window : Authorization → (now : ℕ) → Result VerifyError (Unit {0})
check_window a now =
    if leb now a.valid_after
    then err (not_yet_valid a.valid_after now)
    else if leb a.valid_before now
    then err (expired a.valid_before now)
    else ok tt

module _ (crypto : Crypto) where
  unfoldable pub domain_for : PaymentRequirements → Result VerifyError Eip712Domain
  unfolding chain_id_of
  domain_for r = chain_id_of r.network >>= λ chain_id. token_field r "name" >>= λ name.
      token_field r "version" >>= λ version.
      or_refused (unusable_asset r.asset) (decode_hex_array crypto 20 r.asset) >>= λ contract.
      ok (record {
        name = name;
        version = version;
        chain_id = chain_id;
        verifying_contract = contract;
      })

  abbrev pub pay_to_of : PaymentRequirements → Result VerifyError Bytes
  pay_to_of r = or_refused (unusable_pay_to r.pay_to) (decode_hex_array crypto 20 r.pay_to)

  abbrev pub check_signer :
      Eip712Domain → (expected : Bytes) → (recovered : Bytes) → Result VerifyError (Unit {0})
  check_signer domain expected recovered =
      if bytes_eq recovered expected then ok tt else err (not_recovered expected recovered domain)

  unfoldable pub verify_signature : ExactPayload → Eip712Domain → Result VerifyError (Unit {0})
  verify_signature payload domain =
      or_unusable_signature domain (
        recover_address crypto (transfer_digest crypto payload.authorization domain)
          payload.signature)
      >>= λ recovered. check_signer domain payload.authorization.from recovered

  unfoldable pub check_terms :
      PaymentPayload → ExactPayload → PaymentRequirements → Result VerifyError (Unit {0})
  check_terms payment payload r =
      check_scheme payment.accepted.scheme r.scheme
      >> (check_network payment.accepted.network r.network
          >> (pay_to_of r >>= λ pay_to.
              check_payee payload.authorization.to pay_to
              >> (or_bad_uint "amount" (parse_u128 r.amount) >>= λ price.
                  check_amount payload.authorization.value price)))
