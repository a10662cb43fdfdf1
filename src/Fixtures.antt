-- ===== src/Fixtures.antt =====
-- Concrete data for the tests: none of it is a real identifier.
use obolus.Prelude.{pos, true, false, none, some, List, [], ◌∷◌, str_eq, if◌then◌else◌}
use obolus.Json.{Value, number, unsigned, string, object, end, field}
use obolus.Payment.{ResourceInfo, PaymentRequirements, PaymentPayload}
use obolus.Payment.Codec.{Engines}
use obolus.Request.Reader.{visit_str, visit_u64, Entry, map, Document}
use obolus.Backends.{openai_compat, Backend, OllamaUpstream, proxy}

abbrev pub base_option : PaymentRequirements
base_option = record {
  scheme = "exact";
  network = "eip155:84532";
  amount = "1000";
  asset = "0xASSET";
  pay_to = "0xPAYEE";
  max_timeout_seconds = 60;
  extra = none;
}

-- The envelope of a payment for the option.
abbrev pub base_envelope : Value
base_envelope = object (
    field "accepted"
      (object (
        field "amount" (string "1000") (
          field "asset" (string "0xASSET") (
            field "maxTimeoutSeconds" (number (unsigned 60)) (
              field "network" (string "eip155:84532")
                (field "payTo" (string "0xPAYEE") (field "scheme" (string "exact") end)))))))
      (field "payload" (object end) (field "x402Version" (number (unsigned 2)) end)))

abbrev pub base_payment : PaymentPayload
base_payment = record { accepted = base_option; received = base_envelope }

-- Engines that know one header.
abbrev pub engines : Engines
engines = record {
  standard = λ s. if str_eq s "cGF5" then some (112 ∷ []) else none;
  standard_no_pad = λ s. none;
  url_safe = λ s. none;
  url_safe_no_pad = λ s. none;
  encode = λ b. "cGF5";
  from_slice = λ b. some base_envelope;
  to_vec = λ v. 112 ∷ [];
  typed = λ v. some base_option;
}

abbrev pub small_upstream : OllamaUpstream
small_upstream = record { base_url = "http://small"; head_timeout = 1000; bearer = none }

abbrev pub small_backend : Backend
small_backend = record {
  id = "small";
  kind = openai_compat;
  base_url = "http://small";
  models = "tiny" ∷ [];
  precedence = none;
  has_key = false;
  cost = some 400;
  rates = ("tiny", record { input = 3000000; output = 15000000 }) ∷ [];
  upstream = proxy small_upstream;
}

abbrev pub big_backend : Backend
big_backend = record small_backend { id = "big"; precedence = some (pos 1) }

abbrev pub resource : ResourceInfo
resource = record { url = "http://localhost"; description = none; mime_type = none }

-- `{"model":"tiny","max_tokens":100}`.
abbrev pub small_entries : List Entry
small_entries =
    record { key = "model"; strict = some (visit_str "tiny"); skips = true }
    ∷ record { key = "max_tokens"; strict = some (visit_u64 100); skips = true }
    ∷ []

abbrev pub small_document : Document
small_document = record { shape = map small_entries true; ends = true; body_len = 33 }
