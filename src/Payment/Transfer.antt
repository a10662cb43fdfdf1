-- ===== src/Payment/Transfer.antt =====
-- The transfer method and payment flow that an option and a payment name: `transfer_disagreement`,
-- `unsupported_transfer` and `server_owned_extension_field` of obolus/src/x402/v2.rs.
pub mod Laws
use obolus.Prelude.{
  false, String, Bool, Option, none, some, List, [], ◌∷◌, not, str_eq, and_then, or_else, unwrap_or,
  find, is_some, if◌then◌else◌,
}
use obolus.Json.{Value, Fields, get, get_field, as_object, as_str}
use obolus.Payment.{PaymentRequirements, PaymentPayload, default_asset_transfer_method}

abbrev pub extra_asset_transfer_method : String
extra_asset_transfer_method = "assetTransferMethod"

abbrev pub extra_payment_flow : String
extra_payment_flow = "paymentFlow"

abbrev pub payment_flow_authorization : String
payment_flow_authorization = "authorization"

-- A key of `extra` and the value that is refused. `resolved` is the one value that would do, and
-- is absent where the gateway knows no default.
pub record TransferRefusal : Type 0 where
  pub key : String
  pub value : Value
  pub resolved : Option String

-- `x.as_str() == y` for the resolved `y`: no text, or another text, differs.
unfoldable pub names : Value → Option String → Bool
names v none = false
names v (some resolved) = elim (as_str v) [ none ↦ false | some s ↦ str_eq s resolved ]

abbrev pub extra_of : Option Value → String → Option Value
extra_of extra key = and_then extra (get key)

-- One round of either loop over the reserved keys.
unfoldable pub refuse_unless : String → Option Value → Option String → Option TransferRefusal
unfolding names
refuse_unless key none resolved = none
refuse_unless key (some v) resolved =
    if names v resolved then none else some (record { key = key; value = v; resolved = resolved })

unfoldable pub resolved_method : PaymentRequirements → Option String
resolved_method r =
    or_else (and_then (extra_of r.extra extra_asset_transfer_method) as_str)
      (default_asset_transfer_method r.scheme r.network)

unfoldable pub resolved_flow : PaymentRequirements → String
resolved_flow r =
    unwrap_or (and_then (extra_of r.extra extra_payment_flow) as_str) payment_flow_authorization

-- The `extra` of the option that the client sent.
abbrev pub their_extra : PaymentPayload → Option Value
their_extra payment = and_then (get "accepted" payment.received) (get "extra")

unfoldable pub transfer_disagreement : PaymentRequirements → PaymentPayload → Option TransferRefusal
unfolding refuse_unless resolved_method resolved_flow
transfer_disagreement r payment =
    or_else
      (refuse_unless extra_asset_transfer_method
        (extra_of (their_extra payment) extra_asset_transfer_method) (resolved_method r))
      (refuse_unless extra_payment_flow (extra_of (their_extra payment) extra_payment_flow)
        (some (resolved_flow r)))

unfoldable pub unsupported_transfer : PaymentRequirements → Option TransferRefusal
unfolding refuse_unless
unsupported_transfer r =
    or_else
      (refuse_unless extra_payment_flow (extra_of r.extra extra_payment_flow)
        (some payment_flow_authorization))
      (refuse_unless extra_asset_transfer_method (extra_of r.extra extra_asset_transfer_method)
        (default_asset_transfer_method r.scheme r.network))

-- `SERVER_OWNED_EXTENSION_FIELDS`.
abbrev pub server_owned_extension_fields : List (String × List String)
server_owned_extension_fields = ("builder-code", "a" ∷ []) ∷ []

-- The first listed field that an extension's info holds.
unfoldable pub owned_field : List String → Value → Option String
owned_field fields value = elim (as_object (unwrap_or (get "info" value) value)) [
  | none ↦ none
  | some info ↦ find (λ f. is_some (get_field f info)) fields
]

unfoldable pub owned_in : List (String × List String) → Fields → Option (String × String)
unfolding owned_field
owned_in [] extensions = none
owned_in ((extension, fields) ∷ table) extensions =
    or_else
      (and_then (get_field extension extensions)
        (λ value. and_then (owned_field fields value) (λ f. some (extension, f))))
      (owned_in table extensions)

unfoldable pub server_owned_extension_field : PaymentPayload → Option (String × String)
unfolding owned_in
server_owned_extension_field payment =
    and_then (and_then (get "extensions" payment.received) as_object)
      (owned_in server_owned_extension_fields)
