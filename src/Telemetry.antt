-- ===== src/Telemetry.antt =====
-- The event that one request leaves: `Outcome`, `Trace` and `RequestEvent` of
-- obolus/src/telemetry.rs. The clock reading is an argument.
pub mod Accounts
pub mod Sink
pub mod Stream
pub mod Kept
mod Tests
use Prim.Native.Char.{code}
use Prim.Native.String
use obolus.Prelude.{
  ℕ, ◌-◌, String, Bool, true, false, Option, none, some, List, [], and_then, leb, char_bytes,
  byte_len, if◌then◌else◌,
}
use obolus.Amount.{to_decimal}
use obolus.Payment.{PaymentRequirements}

pub data Outcome : Type 0 where
  unroutable ambiguous_key output_cap_refused unpriced_model served payment_required : Outcome
  payment_malformed option_unmatched verify_rejected verify_unavailable : Outcome
  upstream_unavailable upstream_refused payment_window_elapsed settle_rejected : Outcome
  settle_unavailable settled abandoned : Outcome

pub data AccessPath : Type 0 where
  token payment : AccessPath

pub record Offer : Type 0 where
  pub scheme : String
  pub network : String
  pub asset : String
  pub amount : String

unfoldable pub offer_from : PaymentRequirements → Offer
offer_from r = record { scheme = r.scheme; network = r.network; asset = r.asset; amount = r.amount }

pub record RequestEvent : Type 0 where
  pub ts_ms : ℕ
  pub outcome : Outcome
  pub access : Option AccessPath
  pub backend : Option String
  pub model : Option String
  pub offers : List Offer
  pub paid : Option Offer
  pub upstream_invoked : Bool
  pub upstream_status : Option ℕ
  pub cost : Option String
  pub revenue : Option String
  pub transaction : Option String
  pub quote_input_tokens : Option ℕ
  pub quote_max_tokens : Option ℕ

pub record Trace : Type 0 where
  pub access : Option AccessPath
  pub backend : Option String
  pub model : Option String
  pub backend_cost : Option ℕ
  pub offers : List Offer
  pub paid : Option Offer
  pub upstream_invoked : Bool
  pub upstream_status : Option ℕ
  pub settle_attempted : Bool
  pub transaction : Option String
  pub quote_input_tokens : Option ℕ
  pub quote_max_tokens : Option ℕ

-- `Trace::default`.
abbrev pub default_trace : Trace
default_trace = record {
  access = none;
  backend = none;
  model = none;
  backend_cost = none;
  offers = [];
  paid = none;
  upstream_invoked = false;
  upstream_status = none;
  settle_attempted = false;
  transaction = none;
  quote_input_tokens = none;
  quote_max_tokens = none;
}

abbrev pub max_model_bytes : ℕ
max_model_bytes = 256

-- The longest prefix of whole characters that fits the bytes: where the walk back from the bound to
-- a character boundary ends.
unfoldable pub prefix_within : ℕ → String → String
prefix_within room String.[] = ""
prefix_within room (String.◌∷◌ c s) =
    let rest = prefix_within (room - char_bytes (code c)) s in
    if leb (char_bytes (code c)) room then String.◌∷◌ c rest else ""

unfoldable pub bounded_model : String → String
unfolding prefix_within
bounded_model model =
    if leb (byte_len model) max_model_bytes then model else prefix_within max_model_bytes model

-- What was charged, by the outcome.
unfoldable pub revenue_of : Outcome → Trace → Option String
revenue_of settled t = and_then t.paid λ paid. some paid.amount
revenue_of settle_unavailable t = none
revenue_of abandoned t = if t.settle_attempted then none else some "0"
revenue_of _ t = some "0"

unfoldable pub cost_of : Trace → Option String
cost_of t =
    if t.upstream_invoked then and_then t.backend_cost (λ c. some (to_decimal c)) else some "0"

-- `Trace::finish`.
unfoldable pub finish : Trace → Outcome → (ts_ms : ℕ) → RequestEvent
unfolding revenue_of cost_of bounded_model
finish t outcome ts_ms = record {
  ts_ms = ts_ms;
  outcome = outcome;
  access = t.access;
  backend = t.backend;
  model = and_then t.model λ model. some (bounded_model model);
  offers = t.offers;
  paid = t.paid;
  upstream_invoked = t.upstream_invoked;
  upstream_status = t.upstream_status;
  cost = cost_of t;
  revenue = revenue_of outcome t;
  transaction = t.transaction;
  quote_input_tokens = t.quote_input_tokens;
  quote_max_tokens = t.quote_max_tokens;
}
