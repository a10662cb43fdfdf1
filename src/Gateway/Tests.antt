-- ===== src/Gateway/Tests.antt =====
-- Concrete requests through the gateway.
use obolus.Prelude.{
  ℕ, zero, suc, ◌<◌, ◌≤◌, String, ◌≡◌, ◌⊎◌, inl, inr, refl, Bool, true, false, Option, none, some,
  List, [], ◌∷◌, All, is_some, arith,
}
use obolus.Prelude.Results.{ok}
use obolus.Amount.{u128_max, parse_u128, to_decimal}
use obolus.Payment.{
  ResourceInfo, PaymentRequirements, PaymentPayload, SettlementReceipt, is_accepted_by,
}
use obolus.Payment.Codec.{Bytes}
use obolus.Request.{RequestShape, parse}
use obolus.Request.Pass.{limit}
use obolus.Backends.{openai_compat, ollama, route}
use obolus.Access.{unset, visible, bearer_token}
use obolus.Arming.{ArmedRequirements, check_arming}
use obolus.Arming.Guard.{MayAdvertise}
use obolus.Pricing.{static_price}
use obolus.Telemetry.{default_trace}
use obolus.Fixtures.{
  base_option, base_payment, engines, small_backend, resource, small_entries, small_document,
}
use obolus.Gateway.{Gateway, new, priced, repriced, output_cap_refusal, UpstreamResponse}
use obolus.Gateway.Steps.{Env, run, event_of}
use obolus.Gateway.Paid.{Outside, Order, paid_completion}
use obolus.Gateway.Serve.{Arrived, Access, honoured, serve}
use obolus.Gateway.Protocol.{serves_work}
use obolus.Gateway.Ledger.{Story, paid_completion-Story}
use obolus.Gateway.Endings.{Ending, serve-Ending}
use obolus.Gateway.Charges.{IsBought, AsksSettle, serve-work_is_paid, event_of-revenue}
use obolus.Gateway.Answers.{serve-answers}
use obolus.Gateway.Offers.{acceptances, price_of, priced-acceptances, priced-MayAdvertise}
use obolus.Gateway.Caps.{IsBoundedBody, IsSingleCompletion, cap-bounds_body}

abbrev outside : Outside
outside = record { engines = engines; read = λ b. small_document; header_safe = λ s. true }

abbrev gateway : Gateway
gateway = record {
  backends = small_backend ∷ [];
  resource = resource;
  requirements = base_option ∷ [];
  price = static_price;
  max_output_tokens = 4096;
  model_rates_required = false;
}

abbrev access : Access
access = record { token_path = none; gateway = gateway }

abbrev paying : Arrived
paying = record { authorization = unset; signature = visible "cGF5"; body = 123 ∷ 125 ∷ [] }

abbrev response : UpstreamResponse
response = record { status = 200; content_type = none; body = 104 ∷ [] }

abbrev receipt : SettlementReceipt
receipt = record {
  success = true;
  error_reason = none;
  transaction = "0xTX";
  network = "eip155:84532";
  payer = none;
  amount = none;
}

-- Everything goes well: five nanoseconds to verify and seven for the upstream's head.
abbrev fine : Env
fine = record {
  verify = λ p r. (ok tt, 5);
  forward = λ u b. record { head = some response; took = 7 };
  settle = λ p r. ok receipt;
}

abbrev shape : RequestShape
shape = record {
  model = some "tiny";
  max_tokens = limit 100;
  max_completion_tokens = false;
  case_variant = none;
  n_other_than_one = false;
  best_of = false;
  read_in_full = true;
  body_len = 33;
}

small_document-shape : parse small_document ≡ shape
unfolding parse obolus.Request.Keys.key_of obolus.Request.Pass.step_key
small_document-shape = refl

-- The client waits for all three answers and is served.
work : serves_work (run fine 3 (serve outside access paying)).response ≡ true
unfolding serve run parse obolus.Request.Pass.step_key obolus.Request.Keys.key_of route
    output_cap_refusal paid_completion obolus.Payment.Codec.decode_payment obolus.Prelude.trim
    obolus.Json.get_field obolus.Gateway.accepted_for priced is_accepted_by obolus.Json.fields_eq
    obolus.Json.remove_field obolus.Payment.to_fields to_decimal static_price parse_u128
    obolus.Payment.Transfer.transfer_disagreement
    obolus.Payment.Transfer.server_owned_extension_field obolus.Gateway.Paid.after_verify
    obolus.Gateway.Paid.after_forward obolus.Gateway.Paid.after_settle obolus.Gateway.proxy_response
    obolus.Payment.covers obolus.Amount.digit obolus.Json.number_eq obolus.Payment.without_fields
work = refl

serve-work_is_paid_example :
    (honoured none (bearer_token unset) ≡ true)
    ⊎ IsBought outside access paying fine
        (parse small_document)
        (run fine 3 (serve outside access paying))
serve-work_is_paid_example = serve-work_is_paid outside access paying fine 3 work

abbrev order : Order
order = record {
  gateway = gateway;
  upstream = small_backend.upstream;
  offered = base_option ∷ [];
  body = paying.body;
}

-- The client goes away while the settlement is under way.
paid_completion-Story_example :
    Story outside order fine
      (visible "cGF5")
      (run fine 2 (paid_completion outside order default_trace (visible "cGF5")))
paid_completion-Story_example =
    paid_completion-Story outside order fine (visible "cGF5") 2 default_trace refl

serve-Ending_example :
    Ending outside access paying fine
      (parse small_document)
      (run fine 3 (serve outside access paying))
serve-Ending_example = serve-Ending outside access paying fine 3

event_of-revenue_example :
    ((event_of (run fine 2 (serve outside access paying)) 1700000000000).revenue ≡ some "0")
    ⊎ AsksSettle outside access paying fine (run fine 2 (serve outside access paying))
event_of-revenue_example = event_of-revenue outside access paying fine 2 1700000000000

serve-answers_example : is_some (run fine 3 (serve outside access paying)).response ≡ true
serve-answers_example = serve-answers outside access paying fine 3 (omega arith)

within_cap : output_cap_refusal (parse small_document) openai_compat 4096 ≡ none
unfolding output_cap_refusal parse obolus.Request.Keys.key_of obolus.Request.Pass.step_key
within_cap = refl

no_variant : (parse small_document).case_variant ≡ none
unfolding parse obolus.Request.Keys.key_of obolus.Request.Pass.step_key
no_variant = refl

cap-bounds_body_example :
    IsBoundedBody small_entries 4096 × ((openai_compat ≡ ollama) ⊎ IsSingleCompletion small_entries)
cap-bounds_body_example =
    cap-bounds_body small_document small_entries true openai_compat 4096 refl no_variant within_cap

abbrev armed : ArmedRequirements
armed = record { requirements = base_option ∷ []; unproven = []; diagnosis = [] }

guarded : check_arming (base_option ∷ []) [] ≡ ok armed
unfolding check_arming obolus.Arming.is_provably_testnet
guarded = refl

built : new (small_backend ∷ []) resource armed ≡ ok gateway
unfolding new obolus.Gateway.check_option obolus.Payment.Transfer.unsupported_transfer
built = refl

priced-acceptances_example : acceptances (priced gateway shape small_backend) base_payment ≤ 1
priced-acceptances_example =
    priced-acceptances (small_backend ∷ []) resource armed gateway shape small_backend base_payment
      built

priced-MayAdvertise_example :
    All (λ offer. MayAdvertise [] offer.network) (priced gateway shape small_backend)
priced-MayAdvertise_example =
    priced-MayAdvertise (base_option ∷ []) [] armed (small_backend ∷ []) resource gateway shape
      small_backend guarded built

quoted : price_of gateway shape small_backend base_option ≡ 1000
unfolding static_price parse_u128
quoted = refl

small_price : (price : ℕ) → price ≡ 1000 → price ≤ u128_max
small_price price h = omega arith

affordable : price_of gateway shape small_backend base_option ≤ u128_max
affordable = small_price (price_of gateway shape small_backend base_option) quoted
