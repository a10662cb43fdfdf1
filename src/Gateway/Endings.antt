-- ===== src/Gateway/Endings.antt =====
-- How any request ends, for `serve` of obolus/src/gateway.rs.
use obolus.Prelude.{
  ℕ, zero, suc, ◌≡◌, refl, ap, Bool, true, false, Option, none, some, [], ◌∷◌, is_some,
  if◌then◌else◌,
}
use obolus.Prelude.Results.{Result, ok, err}
use obolus.Backends.{Backend, TokenRate, RouteError, route}
use obolus.Request.{RequestShape, parse}
use obolus.Request.Keys.{CaseVariant}
use obolus.Access.{bearer_token}
use obolus.Facilitator.{is_success}
use obolus.Pricing.{model_rate}
use obolus.Telemetry.{served, upstream_refused, token, payment, Trace, default_trace, revenue_of}
use obolus.Gateway.{CapRefusal, output_cap_refusal, priced}
use obolus.Gateway.Steps.{
  Forwarded, answered, failed, timed_out, within, Env, forward_call, Run, run,
}
use obolus.Gateway.Paid.{Outside, Order}
use obolus.Gateway.Serve.{
  Arrived, Access, honoured, after_token, charge, check_rate, check_rates, check_cap, check_token,
  check_route, check_variant, serve,
}
use obolus.Gateway.Protocol.{revenue, Uncharged}
use obolus.Gateway.Ledger.{Story, paid_completion-Story}

module _ (o : Outside) (access : Access) (arrived : Arrived) (env : Env) where
  abbrev pub order_of : RequestShape → Backend → Order
  order_of request backend = record {
    gateway = access.gateway;
    upstream = backend.upstream;
    offered = priced access.gateway request backend;
    body = arrived.body;
  }

  -- Why a request reaches the paying path.
  abbrev pub IsAdmitted : RequestShape → Backend → Type 0
  IsAdmitted request backend =
      (request.case_variant ≡ none)
      × (route access.gateway.backends request.model ≡ ok backend)
      × (honoured access.token_path (bearer_token arrived.authorization) ≡ false)
      × (output_cap_refusal request backend.kind access.gateway.max_output_tokens ≡ none)
      × (access.gateway.model_rates_required ≡ true → is_some (model_rate request backend) ≡ true)

  pub data Ending (request : RequestShape) (ended : Run) : Type 0 where
    refused_early : ended.calls ≡ [] → Uncharged ended → Ending request ended
    by_token :
        (backend : Backend)
        → route access.gateway.backends request.model ≡ ok backend
        → honoured access.token_path (bearer_token arrived.authorization) ≡ true
        → ended.calls ≡ forward_call backend.upstream arrived.body ∷ []
        → revenue ended ≡ some "0"
        → Ending request ended
    by_payment :
        (backend : Backend)
        → IsAdmitted request backend
        → Story o (order_of request backend) env arrived.signature ended
        → Ending request ended

  charge-Ending :
      (patience : ℕ) (request : RequestShape) (backend : Backend) (trace : Trace)
      → trace.settle_attempted ≡ false
      → IsAdmitted request backend
      → Ending request (run env patience (charge o access arrived request backend trace))
  charge-Ending patience request backend trace fresh admitted = by_payment backend admitted (
      paid_completion-Story o (order_of request backend) env arrived.signature patience trace fresh)

  check_rate-Ending :
      (patience : ℕ) (request : RequestShape) (backend : Backend) (trace : Trace)
      (rate : Option TokenRate)
      → trace.settle_attempted ≡ false
      → (is_some rate ≡ true → IsAdmitted request backend)
      → Ending request (run env patience (check_rate o access arrived request backend trace rate))
  unfolding run revenue_of
  check_rate-Ending patience request backend trace none fresh admitted =
      refused_early refl (refl, refl)
  check_rate-Ending patience request backend trace (some rate) fresh admitted =
      charge-Ending patience request backend _ fresh (admitted refl)

  check_rates-Ending :
      (required : Bool) (patience : ℕ) (request : RequestShape) (backend : Backend) (trace : Trace)
      → trace.settle_attempted ≡ false
      → access.gateway.model_rates_required ≡ required
      → request.case_variant ≡ none
      → route access.gateway.backends request.model ≡ ok backend
      → honoured access.token_path (bearer_token arrived.authorization) ≡ false
      → output_cap_refusal request backend.kind access.gateway.max_output_tokens ≡ none
      → Ending request
          (run env patience (check_rates o access arrived required request backend trace))
  check_rates-Ending true patience request backend trace fresh required clear routed plain fits =
      check_rate-Ending patience request backend trace (model_rate request backend) fresh
        (λ rated. (clear, routed, plain, fits, λ _. rated))
  check_rates-Ending false patience request backend trace fresh optional clear routed plain fits =
      charge-Ending patience request backend trace fresh
        (clear, routed, plain, fits, λ required. cc (required, optional))

  check_cap-Ending :
      (patience : ℕ) (request : RequestShape) (backend : Backend) (trace : Trace)
      (why : Option CapRefusal)
      → trace.settle_attempted ≡ false
      → output_cap_refusal request backend.kind access.gateway.max_output_tokens ≡ why
      → request.case_variant ≡ none
      → route access.gateway.backends request.model ≡ ok backend
      → honoured access.token_path (bearer_token arrived.authorization) ≡ false
      → Ending request (run env patience (check_cap o access arrived request backend trace why))
  unfolding run revenue_of
  check_cap-Ending patience request backend trace (some why) fresh refused clear routed plain =
      refused_early refl (refl, refl)
  check_cap-Ending patience request backend trace none fresh within_cap clear routed plain =
      check_rates-Ending access.gateway.model_rates_required patience request backend trace fresh
        refl clear routed plain within_cap

  after_token-free :
      (patience : ℕ) (trace : Trace) (head : Forwarded)
      → ((run env patience (after_token o access arrived trace head)).calls ≡ [])
        × (revenue (run env patience (after_token o access arrived trace head)) ≡ some "0")
  unfolding run revenue_of
  after_token-free patience trace (answered response) = (refl, free (is_success response.status) _)
    where
      free :
          (success : Bool) (t : Trace)
          → revenue_of (if success then served else upstream_refused) t ≡ some "0"
      free true t = refl
      free false t = refl
  after_token-free patience trace failed = (refl, refl)
  after_token-free patience trace timed_out = (refl, refl)

  check_token-Ending :
      (patience : ℕ) (request : RequestShape) (backend : Backend) (trace : Trace)
      (is_honoured : Bool)
      → trace.settle_attempted ≡ false
      → honoured access.token_path (bearer_token arrived.authorization) ≡ is_honoured
      → request.case_variant ≡ none
      → route access.gateway.backends request.model ≡ ok backend
      → Ending request
          (run env patience (check_token o access arrived request backend trace is_honoured))
  unfolding run revenue_of
  check_token-Ending zero request backend trace true fresh honest clear routed =
      by_token backend routed honest refl (rw fresh refl)
  check_token-Ending (suc patience) request backend trace true fresh honest clear routed =
      let (calls, free) =
        after_token-free patience (record trace { access = some token; upstream_invoked = true })
          (within none (env.forward backend.upstream arrived.body)) in
      by_token backend routed honest
        (ap (λ c. forward_call backend.upstream arrived.body ∷ c) calls) free
  check_token-Ending patience request backend trace false fresh plain clear routed =
      check_cap-Ending patience request backend (record trace { access = some payment })
        (output_cap_refusal request backend.kind access.gateway.max_output_tokens) fresh refl clear
        routed plain

  check_route-Ending :
      (patience : ℕ) (request : RequestShape) (trace : Trace) (routed : Result RouteError Backend)
      → trace.settle_attempted ≡ false
      → request.case_variant ≡ none
      → route access.gateway.backends request.model ≡ routed
      → Ending request (run env patience (check_route o access arrived request trace routed))
  unfolding run revenue_of
  check_route-Ending patience request trace (err why) fresh clear routed =
      refused_early refl (refl, refl)
  check_route-Ending patience request trace (ok backend) fresh clear routed =
      check_token-Ending patience request backend
        (record trace { backend = some backend.id; backend_cost = backend.cost })
        (honoured access.token_path (bearer_token arrived.authorization)) fresh refl clear routed

  check_variant-Ending :
      (patience : ℕ) (request : RequestShape) (trace : Trace) (variant : Option CaseVariant)
      → trace.settle_attempted ≡ false
      → request.case_variant ≡ variant
      → Ending request (run env patience (check_variant o access arrived request trace variant))
  unfolding run revenue_of
  check_variant-Ending patience request trace (some v) fresh found = refused_early refl (refl, refl)
  check_variant-Ending patience request trace none fresh clear =
      check_route-Ending patience request trace (route access.gateway.backends request.model) fresh
        clear refl

  -- Every request ends in one of three ways: it is refused with no call and no charge; or its token
  -- is honoured, the one call is to the upstream of its route, and nothing is charged; or it has no
  -- token that is honoured, it passed the case, route, output and rate checks, and it ends as a paid
  -- request on the priced offers of its route.
  pub serve-Ending :
      (patience : ℕ)
      → Ending (parse (o.read arrived.body)) (run env patience (serve o access arrived))
  unfolding serve
  serve-Ending patience =
      check_variant-Ending patience (parse (o.read arrived.body))
        (record default_trace { model = (parse (o.read arrived.body)).model })
        (parse (o.read arrived.body)).case_variant refl refl
