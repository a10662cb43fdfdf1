-- ===== src/Payment/Transfer/Laws.antt =====
-- The gateway runs one transfer method and one payment flow for each option, whatever a client adds.
use obolus.Prelude.{
  String, ◌≡◌, refl, true, Option, none, some, arith, eq_iff, eq_refl, Option-cases, inl, inr,
  or_else, and_then, unwrap_or,
}
use obolus.Json.{Value, Fields, get_field, as_str}
use obolus.Payment.{
  PaymentRequirements, PaymentPayload, to_fields, new_payload, default_asset_transfer_method,
}
use obolus.Payment.Transfer.{
  names, extra_of, refuse_unless, resolved_method, resolved_flow, their_extra,
  transfer_disagreement, unsupported_transfer, extra_asset_transfer_method, extra_payment_flow,
  payment_flow_authorization,
}

names_iff :
    (v : Value) (o : Option String)
    → names v o ≡ true
    → (s : String) × (as_str v ≡ some s) × (o ≡ some s)
unfolding names
names_iff v none h = cc
names_iff v (some r) h = elim (Option-cases (as_str v)) [
  | inl missing ↦ absurd (ground arith)
  | inr (s, found) ↦ (s, found, ground (arith, eq_iff s r))
]

names-some : (v : Value) (s : String) → as_str v ≡ some s → names v (some s) ≡ true
unfolding names
names-some v s h = rw (h, names) (eq_refl s)

refuse_unless-eq-none :
    (key : String) (v : Value) (o : Option String)
    → refuse_unless key (some v) o ≡ none
    → names v o ≡ true
unfolding refuse_unless
refuse_unless-eq-none key v o h = ground arith

refuse_unless_of_names :
    (key : String) (v : Value) (o : Option String)
    → names v o ≡ true
    → refuse_unless key (some v) o ≡ none
unfolding refuse_unless
refuse_unless_of_names key v o h = ground arith

or_else-eq-none {ℓ} : {A : Type ℓ} (a b : Option A) → or_else a b ≡ none → (a ≡ none) × (b ≡ none)
or_else-eq-none none b h = (refl, h)
or_else-eq-none (some x) b h = cc

-- The text that a reserved key names, when it is refused by neither check, is the one that is run.
supported_text :
    (key : String) (extra : Option Value) (default : Option String)
    → refuse_unless key (extra_of extra key) default ≡ none
    → (v : Value)
    → refuse_unless key (some v) (or_else (and_then (extra_of extra key) as_str) default) ≡ none
    → (s : String) × (as_str v ≡ some s) × (default ≡ some s)
supported_text key extra default own v theirs = elim (Option-cases (extra_of extra key)) [
  | inl missing ↦ names_iff v default (refuse_unless-eq-none key v default (rw missing at theirs))
  | inr (w, found) ↦
      let (s, text, same) =
        names_iff w default (refuse_unless-eq-none key w default (rw found at own)) in
      let resolved : or_else (and_then (extra_of extra key) as_str) default ≡ some s =
        rw (found, text) refl in
      names_iff v default (rw same (refuse_unless-eq-none key v (some s) (rw resolved at theirs)))
]

some-unwrap_or {ℓ} : {A : Type ℓ} (o : Option A) (d : A) → some (unwrap_or o d) ≡ or_else o (some d)
some-unwrap_or none d = refl
some-unwrap_or (some a) d = refl

unsupported-eq-none :
    (r : PaymentRequirements)
    → unsupported_transfer r ≡ none
    → (refuse_unless extra_payment_flow
          (extra_of r.extra extra_payment_flow)
          (some payment_flow_authorization)
        ≡ none)
      × (refuse_unless extra_asset_transfer_method
            (extra_of r.extra extra_asset_transfer_method)
            (default_asset_transfer_method r.scheme r.network)
          ≡ none)
unfolding unsupported_transfer
unsupported-eq-none r h = or_else-eq-none _ _ h

disagreement-eq-none :
    (r : PaymentRequirements) (payment : PaymentPayload)
    → transfer_disagreement r payment ≡ none
    → (refuse_unless extra_asset_transfer_method
          (extra_of (their_extra payment) extra_asset_transfer_method)
          (resolved_method r)
        ≡ none)
      × (refuse_unless extra_payment_flow
            (extra_of (their_extra payment) extra_payment_flow)
            (some (resolved_flow r))
          ≡ none)
unfolding transfer_disagreement
disagreement-eq-none r payment h = or_else-eq-none _ _ h

named_method :
    (r : PaymentRequirements) (v : Value)
    → unsupported_transfer r ≡ none
    → refuse_unless extra_asset_transfer_method (some v) (resolved_method r) ≡ none
    → (s : String) × (as_str v ≡ some s)
      × (default_asset_transfer_method r.scheme r.network ≡ some s)
unfolding resolved_method
named_method r v own theirs =
    supported_text extra_asset_transfer_method r.extra
      (default_asset_transfer_method r.scheme r.network) (unsupported-eq-none r own).1 v theirs

named_flow :
    (r : PaymentRequirements) (v : Value)
    → unsupported_transfer r ≡ none
    → refuse_unless extra_payment_flow (some v) (some (resolved_flow r)) ≡ none
    → (s : String) × (as_str v ≡ some s) × (some payment_flow_authorization ≡ some s)
unfolding resolved_flow
named_flow r v own theirs =
    supported_text extra_payment_flow r.extra (some payment_flow_authorization)
      (unsupported-eq-none r own).0 v (rw some-unwrap_or at theirs)

-- Where an option is supported and a payment does not disagree with it, the transfer method that the
-- payment names is the default of the option's scheme and network, and the flow that it names is
-- `authorization`.
pub transfer_disagreement-runs_default :
    (r : PaymentRequirements) (payment : PaymentPayload) (method flow : Value)
    → unsupported_transfer r ≡ none
    → transfer_disagreement r payment ≡ none
    → ((extra_of (their_extra payment) extra_asset_transfer_method ≡ some method)
        → (s : String) × (as_str method ≡ some s)
          × (default_asset_transfer_method r.scheme r.network ≡ some s))
      × ((extra_of (their_extra payment) extra_payment_flow ≡ some flow)
          → (s : String) × (as_str flow ≡ some s) × (some payment_flow_authorization ≡ some s))
transfer_disagreement-runs_default r payment method flow own agreed =
    let (m, f) = disagreement-eq-none r payment agreed in
    (
      λ named. named_method r method own (rw named at m),
      λ named. named_flow r flow own (rw named at f),
    )

-- An option that is supported does not disagree with a payment that echoes it.
echoed :
    (key : String) (extra : Option Value) (default : Option String)
    → refuse_unless key (extra_of extra key) default ≡ none
    → refuse_unless key
        (extra_of extra key)
        (or_else (and_then (extra_of extra key) as_str) default)
      ≡ none
echoed key extra default own = elim (Option-cases (extra_of extra key)) [
  | inl missing ↦ rw missing (unfold refuse_unless in refl)
  | inr (w, found) ↦
      let (s, text, same) =
        names_iff w default (refuse_unless-eq-none key w default (rw found at own)) in
      rw (found, text) (refuse_unless_of_names key w (some s) (names-some w s text))
]

their_extra-new_payload :
    (resource : Option Value) (r : PaymentRequirements) (payload : Fields)
    → their_extra (new_payload resource r payload) ≡ r.extra
unfolding new_payload to_fields get_field
their_extra-new_payload resource r payload = ground arith

or_else-none {ℓ} : {A : Type ℓ} {a b : Option A} → a ≡ none → b ≡ none → or_else a b ≡ none
or_else-none h k = rw (h, k) refl

-- A payment that echoes a supported option passes the check on methods and flows.
pub transfer_disagreement-new_payload :
    (resource : Option Value) (r : PaymentRequirements) (payload : Fields)
    → unsupported_transfer r ≡ none
    → transfer_disagreement r (new_payload resource r payload) ≡ none
unfolding transfer_disagreement resolved_method resolved_flow
transfer_disagreement-new_payload resource r payload own =
    let (flow, method) = unsupported-eq-none r own in
    rw (their_extra-new_payload resource r payload) (
      or_else-none (echoed extra_asset_transfer_method r.extra _ method)
        (rw some-unwrap_or (echoed extra_payment_flow r.extra _ flow)))
