-- ===== src/Gateway/Charges.antt =====
-- What a client pays for what it is served, for `serve` of obolus/src/gateway.rs.
use obolus.Prelude.{ℕ, ◌≡◌, ◌⊎◌, inl, inr, true, some, [], ◌∷◌}
use obolus.Prelude.Results.{ok}
use obolus.Payment.{PaymentRequirements, PaymentPayload, SettlementReceipt}
use obolus.Backends.{Backend, route}
use obolus.Request.{RequestShape, parse}
use obolus.Access.{bearer_token}
use obolus.Telemetry.{finish}
use obolus.Gateway.{priced, accepted_for}
use obolus.Gateway.Steps.{Env, Call, verify_call, forward_call, settle_call, Run, run, event_of}
use obolus.Gateway.Paid.{Outside}
use obolus.Gateway.Serve.{Arrived, Access, honoured, serve}
use obolus.Gateway.Protocol.{serves_work, revenue}
use obolus.Gateway.Ledger.{Story, unpaid, asked, ran, charged}
use obolus.Gateway.Endings.{order_of, Ending, refused_early, by_token, by_payment, serve-Ending}

module _ (o : Outside) (access : Access) (arrived : Arrived) (env : Env) where
  -- The offers of the route that the request takes.
  abbrev pub IsBought : RequestShape → Run → Type 0
  IsBought request ended =
      (backend : Backend) × (paid : PaymentPayload) × (r : PaymentRequirements)
      × (receipt : SettlementReceipt) × (route access.gateway.backends request.model ≡ ok backend)
      × (accepted_for (priced access.gateway request backend) paid ≡ some r)
      × ((env.verify paid r).0 ≡ ok tt)
      × (env.settle paid r ≡ ok receipt)
      × (receipt.success ≡ true)
      × (revenue ended ≡ some r.amount)

  IsBought-of :
      (request : RequestShape) (backend : Backend) (ended : Run)
      → route access.gateway.backends request.model ≡ ok backend
      → serves_work ended.response ≡ true
      → Story o (order_of o access arrived env request backend) env arrived.signature ended
      → IsBought request ended
  IsBought-of request backend ended routed work (unpaid calls (idle, free)) = cc
  IsBought-of request backend ended routed work (asked p r presented calls (idle, free)) = cc
  IsBought-of request backend ended routed work
        (ran p r left presented verified calls (idle, free)) =
      cc
  IsBought-of request backend ended routed work
        (charged p r response
          (raw, h, d, found, a, x)
          (left, (valid, positive, sum), head, success)
          calls
          (inl (receipt, answer, success_said, proxied, outcome, amount))) =
      (backend, p, r, receipt, routed, found, valid, answer, success_said, amount)
  IsBought-of request backend ended routed work
        (charged p r response presented answered_head calls (inr (inl (denied, (idle, free))))) =
      cc
  IsBought-of request backend ended routed work
        (charged p r response presented answered_head calls (inr (inr (why, idle, free)))) =
      cc

  IsBought-if :
      (request : RequestShape) (ended : Run)
      → serves_work ended.response ≡ true
      → Ending o access arrived env request ended
      → (honoured access.token_path (bearer_token arrived.authorization) ≡ true)
        ⊎ IsBought request ended
  IsBought-if request ended work (refused_early calls (idle, free)) = cc
  IsBought-if request ended work (by_token backend routed honest calls free) = inl honest
  IsBought-if request ended work (by_payment backend (clear, routed, plain, fits, rated) story) =
      inr (IsBought-of request backend ended routed work story)

  -- No work is given away: where a client receives an upstream's successful answer, its token was
  -- honoured, or a payment for an offer of its route was verified and settled with a receipt of
  -- success, and the event holds the amount of that offer.
  pub serve-work_is_paid :
      (patience : ℕ)
      → serves_work (run env patience (serve o access arrived)).response ≡ true
      → (honoured access.token_path (bearer_token arrived.authorization) ≡ true)
        ⊎ IsBought (parse (o.read arrived.body)) (run env patience (serve o access arrived))
  serve-work_is_paid patience work =
      IsBought-if _ _ work (serve-Ending o access arrived env patience)

  -- The facilitator was asked to settle.
  abbrev pub AsksSettle : Run → Type 0
  AsksSettle ended =
      (paid : PaymentPayload) × (r : PaymentRequirements) × (upstream_call : Call) × (ended.calls
        ≡ verify_call paid r ∷ upstream_call ∷ settle_call paid r ∷ [])
      × ((env.verify paid r).0 ≡ ok tt)

  charged_if :
      (request : RequestShape) (backend : Backend) (ended : Run)
      → Story o (order_of o access arrived env request backend) env arrived.signature ended
      → (revenue ended ≡ some "0") ⊎ AsksSettle ended
  charged_if request backend ended (unpaid calls (idle, free)) = inl free
  charged_if request backend ended (asked p r presented calls (idle, free)) = inl free
  charged_if request backend ended (ran p r left presented verified calls (idle, free)) = inl free
  charged_if request backend ended
        (charged p r response presented
          (left, (valid, positive, sum), head, success)
          calls
          settlement) =
      inr (p, r, forward_call backend.upstream arrived.body, calls, valid)

  asks_if :
      (request : RequestShape) (ended : Run)
      → Ending o access arrived env request ended
      → (revenue ended ≡ some "0") ⊎ AsksSettle ended
  asks_if request ended (refused_early calls (idle, free)) = inl free
  asks_if request ended (by_token backend routed honest calls free) = inl free
  asks_if request ended (by_payment backend admitted story) = charged_if request backend ended story

  -- The event of a request says that nothing was charged, unless the facilitator was asked to settle
  -- a payment that it had verified for the same offer.
  pub event_of-revenue :
      (patience ts_ms : ℕ)
      → ((event_of (run env patience (serve o access arrived)) ts_ms).revenue ≡ some "0")
        ⊎ AsksSettle (run env patience (serve o access arrived))
  unfolding event_of finish
  event_of-revenue patience ts_ms = asks_if _ _ (serve-Ending o access arrived env patience)
