-- ===== src/Facilitator/Receipts.antt =====
-- What an answer of a facilitator to a settlement can lead to.
use obolus.Prelude.{
  List, [], ◌∷◌, All, find, str_eq, eq_iff, ℕ, ◌≤◌, String, ◌≡◌, ◌≢◌, ◌⊎◌, inl, inr, refl, subst,
  Bool, true, false, ◌&&◌, not, Option, unwrap_or, none, some, all, codes, leb, byte_len, is_empty,
  arith, Bool-cases, if◌then◌else◌,
}
use obolus.Prelude.Results.{ok, err, ok-injective}
use obolus.Payment.{PaymentPayload, SettlementReceipt}
use obolus.Facilitator.{
  rejected, SettleResponse, our_fault, our_fault_reasons, reject_reason, broadcast_hash,
  hash_or_empty, answer_refusal, answer_settle, non_empty, max_reject_reason_len, max_tx_hash_len,
  plausible, is_verdict, is_pending, read_settle, settle,
}
use obolus.Facilitator.Verdicts.{IsBounded, reject_reason-IsBounded}

abbrev IsPlausible : String → Type 0
IsPlausible s = (byte_len s ≤ max_tx_hash_len) × (all plausible (codes s) ≡ true)

kept-IsPlausible :
    (hash : String) (keep : Bool)
    → keep ≡ (leb (byte_len hash) max_tx_hash_len && all plausible (codes hash))
    → IsPlausible (if keep then hash else "")
unfolding byte_len
kept-IsPlausible hash true h = (ground arith, ground arith)
kept-IsPlausible hash false h = (omega arith, refl)

broadcast_hash-IsPlausible :
    (transaction : Option String) → IsPlausible (broadcast_hash transaction)
unfolding broadcast_hash byte_len
broadcast_hash-IsPlausible none = (omega arith, refl)
broadcast_hash-IsPlausible (some hash) = named (is_empty hash)
  where
    named : (missing : Bool) → IsPlausible (hash_or_empty (if not missing then some hash else none))
    named true = (omega arith, refl)
    named false = kept-IsPlausible hash _ refl

-- What a text of an answer comes to: none where it is missing or empty.
abbrev pub Carries : (sent : Option String) → (got : Option String) → Type 0
Carries none got = got ≡ none
Carries (some text) got =
    ((is_empty text ≡ true) × (got ≡ none)) ⊎ ((is_empty text ≡ false) × (got ≡ some text))

-- The network of a receipt: the one that the answer names, else that of the payment.
abbrev pub NamesNetwork : (sent : Option String) → (accepted : String) → (got : String) → Type 0
NamesNetwork none accepted got = got ≡ accepted
NamesNetwork (some network) accepted got =
    ((is_empty network ≡ true) × (got ≡ accepted)) ⊎ ((is_empty network ≡ false) × (got ≡ network))

-- The hash of a receipt of success: as it was sent, empty if none was.
abbrev pub NamesHash : (sent : Option String) → (got : String) → Type 0
NamesHash none got = is_empty got ≡ true
NamesHash (some hash) got = got ≡ hash

-- The reason of a failure: the one that was sent if it is not empty and short enough, else a stock one.
abbrev pub NamesReason : (sent : Option String) → (got : String) → Type 0
NamesReason none got = got ≡ "settlement did not complete"
NamesReason (some reason) got =
    (IsBounded reason × (got ≡ reason))
    ⊎ ((not (is_empty reason) && leb (byte_len reason) 128 ≡ false)
        × (got ≡ "settlement did not complete"))

-- The hash of a failure: the one that was sent if it is plausible, else empty.
abbrev pub NamesBroadcast : (sent : Option String) → (got : String) → Type 0
NamesBroadcast none got = is_empty got ≡ true
NamesBroadcast (some hash) got =
    (IsPlausible hash × (got ≡ hash))
    ⊎ ((not (is_empty hash) && (leb (byte_len hash) 128 && all plausible (codes hash)) ≡ false)
        × (is_empty got ≡ true))

-- A receipt of success.
pub record IsReceipt (payment : PaymentPayload) (parsed : SettleResponse)
    (receipt : SettlementReceipt) : Type 0 where
  pub succeeds : receipt.success ≡ true
  pub says_so : parsed.success ≡ some true
  pub transaction : NamesHash parsed.transaction receipt.transaction
  pub network : NamesNetwork parsed.network payment.accepted.network receipt.network
  pub payer : Carries parsed.payer receipt.payer
  pub amount : Carries parsed.amount receipt.amount
  pub no_error : receipt.error_reason ≡ none

-- A receipt of a definite refusal.
pub record IsRefusal (payment : PaymentPayload) (parsed : SettleResponse)
    (receipt : SettlementReceipt) : Type 0 where
  pub fails : receipt.success ≡ false
  pub says_so : parsed.success ≡ some false
  pub not_pending : parsed.error_reason ≢ some "settlement_pending"
  pub not_ours : All (λ known. parsed.error_reason ≢ some known) our_fault_reasons
  pub reason : String
  pub presented : receipt.error_reason ≡ some reason
  pub bounded : IsBounded reason
  pub reason_sent : NamesReason parsed.error_reason reason
  pub plausible : IsPlausible receipt.transaction
  pub hash_sent : NamesBroadcast parsed.transaction receipt.transaction
  pub network : NamesNetwork parsed.network payment.accepted.network receipt.network
  pub no_payer : receipt.payer ≡ none
  pub no_amount : receipt.amount ≡ none

-- The evidence for a receipt.
abbrev pub Evidenced :
    PaymentPayload → (status : ℕ) → Option SettleResponse → SettlementReceipt → Type 0
Evidenced payment status body receipt =
    (is_verdict status ≡ true)
    × (parsed : SettleResponse) × (body ≡ some parsed)
    × (IsReceipt payment parsed receipt ⊎ IsRefusal payment parsed receipt)

non_empty-Carries : (sent : Option String) → Carries sent (non_empty sent)
non_empty-Carries none = refl
non_empty-Carries (some text) = elim (Bool-cases (is_empty text)) [
  | inl e ↦ inl (e, rw e refl)
  | inr e ↦ inr (e, rw e refl)
]

network_of-NamesNetwork :
    (sent : Option String) (accepted : String)
    → NamesNetwork sent accepted (unwrap_or (non_empty sent) accepted)
network_of-NamesNetwork none accepted = refl
network_of-NamesNetwork (some network) accepted = elim (Bool-cases (is_empty network)) [
  | inl e ↦ inl (e, rw e refl)
  | inr e ↦ inr (e, rw e refl)
]

unwrap_or-NamesHash : (sent : Option String) → NamesHash sent (unwrap_or sent "")
unwrap_or-NamesHash none = refl
unwrap_or-NamesHash (some hash) = refl

reject_reason-sent :
    (sent : Option String) → NamesReason sent (reject_reason sent "settlement did not complete")
unfolding reject_reason
reject_reason-sent none = refl
reject_reason-sent (some reason) =
    elim (Bool-cases (not (is_empty reason) && leb (byte_len reason) max_reject_reason_len)) [
      | inl e ↦ inl ((ground arith, ground arith), rw e refl)
      | inr e ↦ inr (e, rw e refl)
    ]

broadcast_hash-sent : (sent : Option String) → NamesBroadcast sent (broadcast_hash sent)
unfolding broadcast_hash
broadcast_hash-sent none = refl
broadcast_hash-sent (some hash) = elim (Bool-cases (is_empty hash)) [
  | inl e ↦ inr (rw e refl, rw e refl)
  | inr e ↦ elim (Bool-cases (leb (byte_len hash) max_tx_hash_len && all plausible (codes hash))) [
    | inl k ↦ inl ((ground arith, ground arith), rw (e, k) refl)
    | inr k ↦ inr (rw (e, k) refl, rw (e, k) refl)
  ]
]

is_pending-ne :
    (reason : Option String) → is_pending reason ≡ false → reason ≢ some "settlement_pending"
is_pending-ne reason h e = absurd (let awaited : true ≡ false = (rw e at h) in ground arith)

apart :
    (reason : String) (known : List String)
    → find (λ k. str_eq k reason) known ≡ none
    → All (λ k. some reason ≢ some k) known
apart reason [] h = tt
apart reason (k ∷ known) h = elim (Bool-cases (str_eq k reason)) [
  | inl same ↦ absurd (ground arith)
  | inr other ↦ (
    (λ e. absurd (let equal : str_eq k reason ≡ true = (eq_iff k reason).1 cc in ground arith)),
    apart reason known (ground arith),
  )
]

none_apart : (known : List String) → All (λ k. none ≢ some k) known
none_apart [] = tt
none_apart (k ∷ known) = ((λ e. cc), none_apart known)

our_fault-none :
    (reason : Option String)
    → our_fault reason ≡ none
    → All (λ known. reason ≢ some known) our_fault_reasons
unfolding our_fault
our_fault-none none h = none_apart our_fault_reasons
our_fault-none (some reason) h = apart reason our_fault_reasons h

answer_refusal-IsRefusal :
    (still_pending : Bool) (fault : Option String) (payment : PaymentPayload) (status : ℕ)
    (parsed : SettleResponse) (receipt : SettlementReceipt)
    → is_pending parsed.error_reason ≡ still_pending
    → our_fault parsed.error_reason ≡ fault
    → parsed.success ≡ some false
    → answer_refusal still_pending fault payment status parsed ≡ ok receipt
    → IsRefusal payment parsed receipt
answer_refusal-IsRefusal true fault payment status parsed receipt p f e h = cc
answer_refusal-IsRefusal false (some o) payment status parsed receipt p f e h = cc
answer_refusal-IsRefusal false none payment status parsed receipt p f e h =
    subst (IsRefusal payment parsed) (ok-injective h) (record {
      fails = refl;
      says_so = e;
      not_pending = is_pending-ne parsed.error_reason p;
      not_ours = our_fault-none parsed.error_reason f;
      reason = reject_reason parsed.error_reason "settlement did not complete";
      presented = refl;
      bounded =
          reject_reason-IsBounded parsed.error_reason "settlement did not complete"
            (unfold byte_len in (refl, omega arith));
      reason_sent = reject_reason-sent parsed.error_reason;
      plausible = broadcast_hash-IsPlausible parsed.transaction;
      hash_sent = broadcast_hash-sent parsed.transaction;
      network = network_of-NamesNetwork parsed.network payment.accepted.network;
      no_payer = refl;
      no_amount = refl;
    })

settle_answer :
    (success : Option Bool) (payment : PaymentPayload) (status : ℕ) (parsed : SettleResponse)
    (receipt : SettlementReceipt)
    → parsed.success ≡ success
    → answer_settle success payment status parsed ≡ ok receipt
    → IsReceipt payment parsed receipt ⊎ IsRefusal payment parsed receipt
settle_answer (some true) payment status parsed receipt e h = inl (
    subst (IsReceipt payment parsed) (ok-injective h) (record {
      succeeds = refl;
      says_so = e;
      transaction = unwrap_or-NamesHash parsed.transaction;
      network = network_of-NamesNetwork parsed.network payment.accepted.network;
      payer = non_empty-Carries parsed.payer;
      amount = non_empty-Carries parsed.amount;
      no_error = refl;
    }))
settle_answer (some false) payment status parsed receipt e h = inr (
    answer_refusal-IsRefusal (is_pending parsed.error_reason) (our_fault parsed.error_reason)
      payment status parsed receipt refl refl e h)
settle_answer none payment status parsed receipt e h = cc

settle_body :
    (payment : PaymentPayload) (status : ℕ) (body : Option SettleResponse)
    (receipt : SettlementReceipt)
    → read_settle payment status body ≡ ok receipt
    → is_verdict status ≡ true
    → Evidenced payment status body receipt
settle_body payment status none receipt h verdict = cc
settle_body payment status (some parsed) receipt h verdict =
    (verdict, parsed, refl, settle_answer parsed.success payment status parsed receipt refl h)

-- A receipt is built only on a 2xx or 4xx answer, and says what that answer says.
pub settle-receipt :
    (payment : PaymentPayload) (status : ℕ) (body : Option SettleResponse)
    (receipt : SettlementReceipt)
    → settle payment status body ≡ ok receipt
    → Evidenced payment status body receipt
unfolding settle
settle-receipt payment status body receipt h = elim (Bool-cases (is_verdict status)) [
  | inl verdict ↦ settle_body payment status body receipt (ground arith) verdict
  | inr other ↦ absurd (ground arith)
]

refusal_not_rejected :
    (still_pending : Bool) (fault : Option String) (payment : PaymentPayload) (status : ℕ)
    (parsed : SettleResponse) (reason : String)
    → answer_refusal still_pending fault payment status parsed ≢ err (rejected reason)
refusal_not_rejected true fault payment status parsed reason h = cc
refusal_not_rejected false (some f) payment status parsed reason h = cc
refusal_not_rejected false none payment status parsed reason h = cc

answer_not_rejected :
    (success : Option Bool) (payment : PaymentPayload) (status : ℕ) (parsed : SettleResponse)
    (reason : String)
    → answer_settle success payment status parsed ≢ err (rejected reason)
answer_not_rejected (some true) payment status parsed reason h = cc
answer_not_rejected (some false) payment status parsed reason h =
    refusal_not_rejected (is_pending parsed.error_reason) (our_fault parsed.error_reason) payment
      status parsed reason h
answer_not_rejected none payment status parsed reason h = cc

never_rejected :
    (payment : PaymentPayload) (status : ℕ) (body : Option SettleResponse) (reason : String)
    → read_settle payment status body ≢ err (rejected reason)
never_rejected payment status none reason h = cc
never_rejected payment status (some parsed) reason h =
    answer_not_rejected parsed.success payment status parsed reason h

-- A settlement is never reported as a bare rejection: a definite refusal comes back as a receipt.
pub settle-never_rejected :
    (payment : PaymentPayload) (status : ℕ) (body : Option SettleResponse) (reason : String)
    → settle payment status body ≢ err (rejected reason)
unfolding settle
settle-never_rejected payment status body reason h = elim (Bool-cases (is_verdict status)) [
  | inl verdict ↦ never_rejected payment status body reason (ground arith)
  | inr other ↦ absurd (ground arith)
]
