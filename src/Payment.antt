-- ===== src/Payment.antt =====
-- The x402 v2 wire types of obolus/src/x402/v2.rs, and which payments match an option:
-- `PaymentRequirements::is_accepted_by` with what it stands on.
pub mod Transfer
pub mod Codec
pub mod Matching
pub mod Echo
mod Tests
use text.Mathlib.Text.{starts_with}
use obolus.Prelude.{
  ℕ, String, Bool, true, false, ◌&&◌, not, Option, none, some, List, [], ◌∷◌, str_eq, and_then,
  unwrap_or, if◌then◌else◌,
}
use obolus.Json.{
  Value, Fields, null, string, number, unsigned, object, end, field, get, get_field, remove_field,
  as_object, value_eq, fields_eq,
}

pub record ResourceInfo : Type 0 where
  pub url : String
  pub description : Option String
  pub mime_type : Option String

pub record PaymentRequirements : Type 0 where
  pub scheme : String
  pub network : String
  pub amount : String
  pub asset : String
  pub pay_to : String
  pub max_timeout_seconds : ℕ
  pub extra : Option Value

-- A client's payment: the envelope as received, and a typed view of the option it names.
pub record PaymentPayload : Type 0 where
  pub accepted : PaymentRequirements
  pub received : Value

pub record PaymentRequired : Type 0 where
  pub x402_version : ℕ
  pub error : Option String
  pub resource : ResourceInfo
  pub accepts : List PaymentRequirements

pub record SettlementReceipt : Type 0 where
  pub success : Bool
  pub error_reason : Option String
  pub transaction : String
  pub network : String
  pub payer : Option String
  pub amount : Option String

abbrev pub scheme_exact : String
scheme_exact = "exact"

abbrev pub x402_version_spoken : ℕ
x402_version_spoken = 2

unfoldable pub default_asset_transfer_method : String → String → Option String
default_asset_transfer_method scheme network =
    if not (str_eq scheme scheme_exact)
    then none
    else if starts_with network "eip155:"
    then some "eip3009"
    else if starts_with network "solana:"
    then some "default"
    else none

unfoldable pub dynamic_extra_fields : String → String → List String
dynamic_extra_fields scheme network =
    if str_eq scheme scheme_exact && starts_with network "solana:"
    then "recentBlockhash" ∷ "lastValidBlockHeight" ∷ []
    else []

unfoldable pub remove_all : List String → Fields → Fields
remove_all [] fs = fs
remove_all (k ∷ ks) fs = remove_all ks (remove_field k fs)

unfoldable pub without_fields : Option Value → List String → Option Value
unfolding remove_all
without_fields (some (object extra)) fields = some (object (remove_all fields extra))
without_fields other fields = other

-- How an option serializes: camel-case keys, in the order of a map, `extra` left out when absent.
abbrev pub extra_then : Option Value → Fields → Fields
extra_then none rest = rest
extra_then (some e) rest = field "extra" e rest

unfoldable pub to_fields : PaymentRequirements → Fields
to_fields r = field "amount" (string r.amount) (
    field "asset" (string r.asset) (
      extra_then r.extra (
        field "maxTimeoutSeconds" (number (unsigned r.max_timeout_seconds)) (
          field "network" (string r.network)
            (field "payTo" (string r.pay_to) (field "scheme" (string r.scheme) end))))))

unfoldable mutual
  -- Does `actual` contain everything in `expected`?
  pub contains_subset : Value → Value → Bool
  contains_subset (object expected) (object actual) = subset_fields expected actual
  contains_subset (object expected) _ = false
  contains_subset expected actual = value_eq expected actual

  pub subset_fields : Fields → Fields → Bool
  subset_fields end actual = true
  subset_fields (field key value expected) actual =
      (elim (get_field key actual) [ none ↦ false | some found ↦ contains_subset value found ])
      && subset_fields expected actual

-- What an option puts in `extra` is in the client's; an absent one reads as `null`.
unfoldable pub covers : Option Value → Option Value → Bool
covers none accepted_extra = true
covers (some e) accepted_extra = contains_subset e (unwrap_or accepted_extra null)

-- The comparison of an option's own fields with an `accepted` object.
unfoldable pub accepts_object : PaymentRequirements → Fields → Bool
accepts_object r accepted =
    let offered = to_fields r in
    let dynamic = dynamic_extra_fields r.scheme r.network in
    let offered_extra = without_fields (get_field "extra" offered) dynamic in
    let accepted_extra = without_fields (get_field "extra" accepted) dynamic in
    if not (fields_eq (remove_field "extra" offered) (remove_field "extra" accepted))
    then false
    else covers offered_extra accepted_extra

abbrev pub accepted_object : PaymentPayload → Option Fields
accepted_object payment = and_then (get "accepted" payment.received) as_object

unfoldable pub is_accepted_by : PaymentRequirements → PaymentPayload → Bool
unfolding accepts_object
is_accepted_by r payment = elim (accepted_object payment) [
  | none ↦ false
  | some accepted ↦ accepts_object r accepted
]

-- `PaymentPayload::new`, and the envelope that it builds.
abbrev pub resource_then : Option Value → Fields → Fields
resource_then none rest = rest
resource_then (some v) rest = field "resource" v rest

unfoldable pub new_payload : Option Value → PaymentRequirements → Fields → PaymentPayload
unfolding to_fields
new_payload resource accepted payload = record {
  accepted = accepted;
  received = object (
      field "accepted" (object (to_fields accepted)) (
        field "payload" (object payload) (
          resource_then resource
            (field "x402Version" (number (unsigned x402_version_spoken)) end))));
}

-- `PaymentRequired::offering_all` and `with_error`.
unfoldable pub offering_all : ResourceInfo → List PaymentRequirements → PaymentRequired
offering_all resource accepts = record {
  x402_version = x402_version_spoken;
  error = none;
  resource = resource;
  accepts = accepts;
}

unfoldable pub with_error : PaymentRequired → String → PaymentRequired
with_error challenge error = record challenge { error = some error }
