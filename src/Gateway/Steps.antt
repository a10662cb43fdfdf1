-- ===== src/Gateway/Steps.antt =====
-- A request in flight, for the handlers of obolus/src/gateway.rs and the `Recorder` of
-- obolus/src/telemetry.rs: a handler stops at each call to the facilitator or the upstream, and may
-- be dropped there.
use obolus.Prelude.{ℕ, zero, suc, Option, none, some, List, [], ◌∷◌, leb, if◌then◌else◌}
use obolus.Prelude.Results.{Result}
use obolus.Payment.{PaymentRequirements, PaymentPayload, SettlementReceipt}
use obolus.Payment.Codec.{Bytes}
use obolus.Backends.{Upstream}
use obolus.Facilitator.{FacilitatorError}
use obolus.Telemetry.{Outcome, abandoned, Trace, RequestEvent, finish}
use obolus.Gateway.{UpstreamResponse, Response}

-- What an upstream does with a request, and how long its response head takes, in nanoseconds.
pub record Attempt : Type 0 where
  pub head : Option UpstreamResponse
  pub took : ℕ

-- What the handler sees of it: `tokio::time::timeout` looks at the attempt first.
pub data Forwarded : Type 0 where
  answered : UpstreamResponse → Forwarded
  failed timed_out : Forwarded

abbrev pub head_of : Option UpstreamResponse → Forwarded
head_of none = failed
head_of (some response) = answered response

unfoldable pub within : Option ℕ → Attempt → Forwarded
within none attempt = head_of attempt.head
within (some remaining) attempt =
    if leb attempt.took remaining then head_of attempt.head else timed_out

-- The answers of the facilitator and the upstreams. `verify` also says how long after its arrival
-- the request is then.
pub record Env : Type 0 where
  pub verify : PaymentPayload → PaymentRequirements → Result FacilitatorError (Unit {0}) × ℕ
  pub forward : Upstream → Bytes → Attempt
  pub settle : PaymentPayload → PaymentRequirements → Result FacilitatorError SettlementReceipt

pub data Flow : Type 0 where
  finished : Response → Outcome → Trace → Flow
  verifying :
      PaymentPayload
      → PaymentRequirements
      → Trace
      → (Result FacilitatorError (Unit {0}) × ℕ → Flow)
      → Flow
  forwarding : Upstream → Bytes → Option ℕ → Trace → (Forwarded → Flow) → Flow
  settling :
      PaymentPayload
      → PaymentRequirements
      → Trace
      → (Result FacilitatorError SettlementReceipt → Flow)
      → Flow

pub data Call : Type 0 where
  verify_call settle_call : PaymentPayload → PaymentRequirements → Call
  forward_call : Upstream → Bytes → Call

-- How a request ended: `response` is `none` where the client went away.
pub record Run : Type 0 where
  pub response : Option Response
  pub outcome : Outcome
  pub trace : Trace
  pub calls : List Call

abbrev pub after_call : Call → Run → Run
after_call call r = record r { calls = call ∷ r.calls }

-- The handler is dropped while it waits; the call is under way, and its answer is lost.
abbrev pub dropped : Call → Trace → Run
dropped call trace = record {
  response = none;
  outcome = abandoned;
  trace = trace;
  calls = call ∷ [];
}

-- `patience` is the number of waits after which the client goes away.
unfoldable pub run : Env → (patience : ℕ) → Flow → Run
unfolding within
run env patience (finished response outcome trace) = record {
  response = some response;
  outcome = outcome;
  trace = trace;
  calls = [];
}
run env zero (verifying payment r trace next) = dropped (verify_call payment r) trace
run env zero (forwarding upstream body timeout trace next) =
    dropped (forward_call upstream body) trace
run env zero (settling payment r trace next) = dropped (settle_call payment r) trace
run env (suc patience) (verifying payment r trace next) =
    after_call (verify_call payment r) (run env patience (next (env.verify payment r)))
run env (suc patience) (forwarding upstream body timeout trace next) =
    after_call (forward_call upstream body)
      (run env patience (next (within timeout (env.forward upstream body))))
run env (suc patience) (settling payment r trace next) =
    after_call (settle_call payment r) (run env patience (next (env.settle payment r)))

-- The one event that the recorder leaves.
unfoldable pub event_of : Run → (ts_ms : ℕ) → RequestEvent
event_of r ts_ms = finish r.trace r.outcome ts_ms
