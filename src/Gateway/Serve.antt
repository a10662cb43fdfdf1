-- ===== src/Gateway/Serve.antt =====
-- `serve` of obolus/src/gateway.rs.
use obolus.Prelude.{ℕ, String, Bool, true, false, Option, none, some, if◌then◌else◌}
use obolus.Prelude.Results.{Result, ok, err}
use obolus.Payment.Codec.{Bytes}
use obolus.Backends.{Backend, TokenRate, RouteError, route}
use obolus.Request.{RequestShape, parse}
use obolus.Request.Keys.{CaseVariant}
use obolus.Request.Pass.{MaxTokens, limit}
use obolus.Access.{Header, bearer_token}
use obolus.Facilitator.{is_success}
use obolus.Pricing.{estimated_input_tokens, model_rate}
use obolus.Telemetry.{
  unroutable, ambiguous_key, output_cap_refused, unpriced_model, served, upstream_unavailable,
  upstream_refused, token, payment, Trace, default_trace,
}
use obolus.Gateway.{
  Gateway, CapRefusal, route_failure, case_variant_refusal, output_cap_response,
  unpriced_model_refusal, upstream_failure, proxy_response, output_cap_refusal, priced,
}
use obolus.Gateway.Steps.{Forwarded, answered, Flow, finished, forwarding}
use obolus.Gateway.Paid.{Outside, paid_completion}

-- The request as it arrives.
pub record Arrived : Type 0 where
  pub authorization : Header
  pub signature : Header
  pub body : Bytes

-- `Access`: the verdict of the token path's verifier, where there is one.
pub record Access : Type 0 where
  pub token_path : Option (String → Bool)
  pub gateway : Gateway

abbrev pub limit_asked : MaxTokens → Option ℕ
limit_asked (limit asked) = some asked
limit_asked _ = none

-- Whether a token was presented and honoured.
abbrev pub honoured : Option (String → Bool) → Option String → Bool
honoured (some verify) (some presented) = verify presented
honoured _ _ = false

module _ (o : Outside) (access : Access) (arrived : Arrived) where
  abbrev pub after_token : Trace → Forwarded → Flow
  after_token trace (answered response) =
      finished (proxy_response o.header_safe response none)
        (if is_success response.status then served else upstream_refused)
        (record trace { upstream_status = some response.status })
  after_token trace _ = finished upstream_failure upstream_unavailable trace

  -- The paying path, from its price on.
  abbrev pub charge : RequestShape → Backend → Trace → Flow
  charge request backend trace =
      paid_completion o
        (record {
          gateway = access.gateway;
          upstream = backend.upstream;
          offered = priced access.gateway request backend;
          body = arrived.body;
        })
        trace arrived.signature

  abbrev pub check_rate : RequestShape → Backend → Trace → Option TokenRate → Flow
  check_rate request backend trace none =
      finished (unpriced_model_refusal request.model) unpriced_model trace
  check_rate request backend trace (some rate) = charge request backend (record trace {
    quote_input_tokens = some (estimated_input_tokens request.body_len);
    quote_max_tokens = limit_asked request.max_tokens;
  })

  abbrev pub check_rates : (required : Bool) → RequestShape → Backend → Trace → Flow
  check_rates true request backend trace =
      check_rate request backend trace (model_rate request backend)
  check_rates false request backend trace = charge request backend trace

  abbrev pub check_cap : RequestShape → Backend → Trace → Option CapRefusal → Flow
  check_cap request backend trace (some why) =
      finished (output_cap_response why) output_cap_refused trace
  check_cap request backend trace none =
      check_rates access.gateway.model_rates_required request backend trace

  abbrev pub check_token : RequestShape → Backend → Trace → (is_honoured : Bool) → Flow
  check_token request backend trace true =
      forwarding backend.upstream arrived.body none
        (record trace { access = some token; upstream_invoked = true })
        (after_token (record trace { access = some token; upstream_invoked = true }))
  check_token request backend trace false =
      check_cap request backend (record trace { access = some payment })
        (output_cap_refusal request backend.kind access.gateway.max_output_tokens)

  abbrev pub check_route : RequestShape → Trace → Result RouteError Backend → Flow
  check_route request trace (err why) = finished (route_failure why) unroutable trace
  check_route request trace (ok backend) =
      check_token request backend
        (record trace { backend = some backend.id; backend_cost = backend.cost })
        (honoured access.token_path (bearer_token arrived.authorization))

  abbrev pub check_variant : RequestShape → Trace → Option CaseVariant → Flow
  check_variant request trace (some v) =
      finished (case_variant_refusal v.key v.of) ambiguous_key trace
  check_variant request trace none =
      check_route request trace (route access.gateway.backends request.model)

  abbrev pub serve_shape : RequestShape → Flow
  serve_shape request =
      check_variant request (record default_trace { model = request.model }) request.case_variant

  unfoldable pub serve : Flow
  serve = serve_shape (parse (o.read arrived.body))
