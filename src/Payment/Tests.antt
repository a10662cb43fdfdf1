-- ===== src/Payment/Tests.antt =====
-- Concrete payments.
use obolus.Prelude.{
  ℕ, String, ◌≡◌, refl, sym, Bool, true, false, Option, none, some, List, and_then,
}
use obolus.Json.{Value, number, unsigned, string, object, Fields, end, field, as_str}
use obolus.Payment.{
  PaymentRequirements, PaymentPayload, default_asset_transfer_method, accepted_object,
  is_accepted_by, new_payload,
}
use obolus.Prelude.Results.{ok}
use obolus.Payment.Codec.{encode_payment, decode_payment}
use obolus.Payment.Codec.RoundTrip.{IsFaithful, decode_payment-encode_payment}
use obolus.Payment.Transfer.{
  extra_asset_transfer_method, extra_payment_flow, payment_flow_authorization, extra_of,
  their_extra, transfer_disagreement, unsupported_transfer,
}
use obolus.Payment.Transfer.Laws.{transfer_disagreement-runs_default}
use obolus.Payment.Matching.{HasTerms, is_accepted_by-HasTerms}
use obolus.Payment.Echo.{is_accepted_by-new_payload}
use obolus.Fixtures.{base_option, base_payment, engines}

matches : is_accepted_by base_option base_payment ≡ true
unfolding is_accepted_by obolus.Json.get_field obolus.Json.fields_eq obolus.Json.remove_field
    obolus.Payment.to_fields obolus.Json.number_eq obolus.Payment.covers
    obolus.Payment.without_fields
matches = refl

is_accepted_by-HasTerms_example :
    (accepted : Fields) × (accepted_object base_payment ≡ some accepted)
    × HasTerms base_option accepted
is_accepted_by-HasTerms_example = is_accepted_by-HasTerms base_option base_payment matches

-- A longer window is another option.
longer_refused :
    is_accepted_by (record base_option { max_timeout_seconds = 61 }) base_payment ≡ false
unfolding is_accepted_by obolus.Json.get_field obolus.Json.fields_eq obolus.Json.remove_field
    obolus.Payment.to_fields obolus.Json.number_eq
longer_refused = refl

-- The same terms for two offers that differ in `extra` alone.
abbrev domain : Value
domain = object (field "name" (string "Coin") end)

abbrev named_option : PaymentRequirements
named_option = record base_option { extra = some domain }

abbrev named_payment : PaymentPayload
named_payment = new_payload none named_option end

matches_plain : is_accepted_by base_option named_payment ≡ true
unfolding is_accepted_by new_payload obolus.Json.get_field obolus.Json.fields_eq
    obolus.Json.remove_field obolus.Json.number_eq obolus.Payment.covers
    obolus.Payment.without_fields
matches_plain = refl

matches_named : is_accepted_by named_option named_payment ≡ true
unfolding is_accepted_by new_payload obolus.Json.get_field obolus.Json.fields_eq
    obolus.Json.remove_field obolus.Json.number_eq obolus.Payment.covers
    obolus.Payment.without_fields obolus.Payment.contains_subset obolus.Payment.dynamic_extra_fields
matches_named = refl

is_accepted_by-new_payload_example :
    is_accepted_by base_option (new_payload none base_option end) ≡ true
is_accepted_by-new_payload_example = is_accepted_by-new_payload none base_option end tt

faithful : IsFaithful engines (new_payload none base_option end)
unfolding new_payload obolus.Prelude.trim
faithful = record {
  standard-encode = refl;
  from_slice-to_vec = refl;
  trim-encode = refl;
  typed-to_fields = refl;
}

decode_payment-encode_payment_example :
    decode_payment engines (encode_payment engines (new_payload none base_option end))
    ≡ ok (new_payload none base_option end)
decode_payment-encode_payment_example =
    decode_payment-encode_payment engines none base_option end faithful

decoded : decode_payment engines "cGF5" ≡ ok base_payment
unfolding decode_payment obolus.Prelude.trim obolus.Json.get_field
decoded = refl

supported : unsupported_transfer base_option ≡ none
unfolding unsupported_transfer
supported = refl

-- The payment names the method that the option resolves to.
abbrev naming_payment : PaymentPayload
naming_payment = record {
  accepted = base_option;
  received = object (
      field "accepted"
        (object (field "extra" (object (field "assetTransferMethod" (string "eip3009") end)) end))
        end);
}

agreed : transfer_disagreement base_option naming_payment ≡ none
unfolding transfer_disagreement obolus.Json.get_field default_asset_transfer_method
agreed = refl

transfer_disagreement-runs_default_example :
    ((extra_of (their_extra naming_payment) extra_asset_transfer_method ≡ some (string "eip3009"))
      → (s : String) × (as_str (string "eip3009") ≡ some s)
        × (default_asset_transfer_method "exact" "eip155:84532" ≡ some s))
    × ((extra_of (their_extra naming_payment) extra_payment_flow ≡ some (string "authorization"))
        → (s : String) × (as_str (string "authorization") ≡ some s)
          × (some payment_flow_authorization ≡ some s))
transfer_disagreement-runs_default_example =
    transfer_disagreement-runs_default base_option naming_payment (string "eip3009")
      (string "authorization") supported agreed
