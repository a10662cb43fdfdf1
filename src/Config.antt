-- ===== src/Config.antt =====
-- What an operator sets, for obolus/src/config.rs: the payment options of `OBOLUS_ACCEPTS` and of the
-- single chain. The readers of JSON are other people's code: parameters, which give serde's message
-- where they refuse a text.
pub mod Pricing
pub mod Window
pub mod Options
pub mod Choices
pub mod Bounds
mod Tests
use text.Mathlib.Text.{starts_with}
use obolus.Prelude.{
  ℕ, String, Bool, true, false, not, Option, none, some, List, [], ◌∷◌, and_then, is_empty, trim,
  filter, if◌then◌else◌,
}
use obolus.Prelude.Results.{Result, ok, err, ◌>>=◌, ◌>>◌}
use obolus.Amount.{AmountCheck, payable, unpayable, validate_atomic_amount}
use obolus.Json.{Value, Fields, object, get_field, as_str}
use obolus.Payment.{ResourceInfo, PaymentRequirements, scheme_exact}
use obolus.Payment.Transfer.{TransferRefusal, unsupported_transfer}

pub record AcceptEntry : Type 0 where
  pub network : String
  pub asset : String
  pub pay_to : String
  pub amount : Option String
  pub extra : Option Fields
  -- Whether the key is there, with a value other than null.
  pub max_amount_required : Bool

pub record SharedOffer : Type 0 where
  pub resource : String
  pub description : String
  pub max_timeout_seconds : ℕ

abbrev pub resource_info : SharedOffer → ResourceInfo
resource_info shared = record {
  url = shared.resource;
  description = some shared.description;
  mime_type = some "application/json";
}

pub data EntryField : Type 0 where
  asset_field pay_to_field : EntryField

-- `bad_amount` keeps the text that the message quotes.
pub data EntryDefect : Type 0 where
  empty_network : EntryDefect
  empty_field : EntryField → EntryDefect
  bad_amount : String → EntryDefect
  missing_token_domain : (key : String) → EntryDefect
  transfer_not_run : TransferRefusal → EntryDefect

pub data ConfigError : Type 0 where
  malformed : String → ConfigError
  v1_amount_key missing_amount : (network : String) → ConfigError
  empty_accepts entry_without_network : ConfigError
  bad_entry_amount : (network : String) → String → ConfigError
  empty_entry_field : (network : String) → EntryField → ConfigError
  entry_without_domain entry_transfer : (network : String) → EntryDefect → ConfigError

abbrev pub in_accepts_entry : (network : String) → EntryDefect → ConfigError
in_accepts_entry network empty_network = entry_without_network
in_accepts_entry network (empty_field f) = empty_entry_field network f
in_accepts_entry network (bad_amount detail) = bad_entry_amount network detail
in_accepts_entry network (missing_token_domain key) =
    entry_without_domain network (missing_token_domain key)
in_accepts_entry network (transfer_not_run refusal) =
    entry_transfer network (transfer_not_run refusal)

abbrev pub evm_namespace : String
evm_namespace = "eip155:"

-- Whether a text is there and not blank.
abbrev pub has_text : Option String → Bool
has_text none = false
has_text (some value) = not (is_empty (trim value))

abbrev pub domain_text : Option Fields → (key : String) → Option String
domain_text extra key = and_then (and_then extra (get_field key)) as_str

-- The loop over the keys of a token's domain.
unfoldable pub check_domain : Option Fields → List String → Result EntryDefect (Unit {0})
check_domain extra [] = ok tt
check_domain extra (key ∷ keys) =
    let rest = check_domain extra keys in
    if has_text (domain_text extra key) then rest else err (missing_token_domain key)

abbrev pub refuse_blank : String → EntryDefect → Result EntryDefect (Unit {0})
refuse_blank value defect = if is_empty (trim value) then err defect else ok tt

abbrev pub or_bad_amount : AmountCheck → Result EntryDefect String
or_bad_amount (payable amount) = ok amount
or_bad_amount (unpayable raw) = err (bad_amount raw)

abbrev pub check_evm : (network : String) → Option Fields → Result EntryDefect (Unit {0})
check_evm network extra =
    if starts_with network evm_namespace
    then check_domain extra ("name" ∷ "version" ∷ [])
    else ok tt

abbrev pub or_not_run :
    PaymentRequirements → Option TransferRefusal → Result EntryDefect PaymentRequirements
or_not_run option none = ok option
or_not_run option (some refusal) = err (transfer_not_run refusal)

abbrev pub extra_value : Option Fields → Option Value
extra_value none = none
extra_value (some fields) = some (object fields)

-- The option that is advertised for what the operator set.
abbrev pub exact_option :
    (network : String)
    → (asset : String) → (pay_to : String) → (amount : String) → Option Fields
    → SharedOffer
    → PaymentRequirements
exact_option network asset pay_to amount extra shared = record {
  scheme = scheme_exact;
  network = network;
  amount = amount;
  asset = asset;
  pay_to = pay_to;
  max_timeout_seconds = shared.max_timeout_seconds;
  extra = extra_value extra;
}

-- `validated_option`, through which the options of both forms pass.
unfoldable pub validated_option :
    (network : String)
    → (asset : String) → (pay_to : String) → (amount : String) → Option Fields
    → SharedOffer
    → Result EntryDefect PaymentRequirements
unfolding check_domain
validated_option network asset pay_to amount extra shared =
    refuse_blank network empty_network
    >> (refuse_blank asset (empty_field asset_field)
        >> (refuse_blank pay_to (empty_field pay_to_field)
            >> (or_bad_amount (validate_atomic_amount amount) >>= λ amount.
                check_evm network extra
                >> or_not_run (exact_option network asset pay_to amount extra shared) (
                    unsupported_transfer (exact_option network asset pay_to amount extra shared)))))

abbrev pub in_entry :
    (network : String)
    → Result EntryDefect PaymentRequirements
    → Result ConfigError PaymentRequirements
in_entry network (ok option) = ok option
in_entry network (err defect) = err (in_accepts_entry network defect)

abbrev pub priced_entry :
    SharedOffer → AcceptEntry → Option String → Result ConfigError PaymentRequirements
priced_entry shared entry none = err (missing_amount entry.network)
priced_entry shared entry (some amount) =
    in_entry entry.network
      (validated_option entry.network entry.asset entry.pay_to amount entry.extra shared)

abbrev pub entry_option : SharedOffer → AcceptEntry → Result ConfigError PaymentRequirements
entry_option shared entry =
    if entry.max_amount_required
    then err (v1_amount_key entry.network)
    else priced_entry shared entry entry.amount

-- `map` and `collect`: the first refusal ends it.
unfoldable pub entry_options :
    SharedOffer → List AcceptEntry → Result ConfigError (List PaymentRequirements)
entry_options shared [] = ok []
entry_options shared (entry ∷ entries) = entry_option shared entry >>= λ option.
    entry_options shared entries >>= λ options. ok (option ∷ options)

abbrev pub or_malformed : Result String (List AcceptEntry) → Result ConfigError (List AcceptEntry)
or_malformed (ok entries) = ok entries
or_malformed (err message) = err (malformed message)

abbrev pub check_entries : List AcceptEntry → Result ConfigError (Unit {0})
check_entries [] = err empty_accepts
check_entries (_ ∷ _) = ok tt

unfoldable pub parse_accepts :
    (from_str : String → Result String (List AcceptEntry))
    → String
    → SharedOffer
    → Result ConfigError (List PaymentRequirements)
unfolding entry_options
parse_accepts from_str raw shared =
    or_malformed (from_str raw) >>= λ entries. check_entries entries >> entry_options shared entries

pub data ExtraError : Type 0 where
  empty_extra : ExtraError
  not_an_object : String → ExtraError

abbrev pub or_not_an_object : Result String Fields → Result ExtraError (Option Fields)
or_not_an_object (ok fields) = ok (some fields)
or_not_an_object (err message) = err (not_an_object message)

unfoldable pub parse_extra :
    (from_str : String → Result String Fields) → Option String → Result ExtraError (Option Fields)
parse_extra from_str none = ok none
parse_extra from_str (some raw) =
    if is_empty (trim raw) then err empty_extra else or_not_an_object (from_str raw)

abbrev pub extra_var : String
extra_var = "OBOLUS_EXTRA"

abbrev pub single_chain_vars : List String
single_chain_vars =
    "OBOLUS_NETWORK" ∷ "OBOLUS_ASSET" ∷ "OBOLUS_PAY_TO" ∷ "OBOLUS_PRICE" ∷ extra_var ∷ []

unfoldable pub superseded_single_chain_vars : (is_set : String → Bool) → List String
superseded_single_chain_vars is_set = filter is_set single_chain_vars
