-- ===== src/Facilitator/Verdicts.antt =====
-- What an answer of a facilitator to a verification can lead to.
use obolus.Prelude.{
  ℕ, ◌≤◌, String, ◌≡◌, inl, inr, refl, subst, Bool, true, false, Option, none, some, byte_len,
  is_empty, arith, Bool-cases,
}
use obolus.Prelude.Results.{Result, ok, err}
use obolus.Facilitator.{
  FacilitatorError, rejected, VerifyResponse, our_fault, reject_reason, answer_verify,
  max_reject_reason_len, is_verdict, read_verify, verify,
}

-- A text that a client may read: not empty and bounded.
abbrev pub IsBounded : String → Type 0
IsBounded s = (is_empty s ≡ false) × (byte_len s ≤ max_reject_reason_len)

pub reject_reason-IsBounded :
    (reason : Option String) (fallback : String)
    → IsBounded fallback
    → IsBounded (reject_reason reason fallback)
unfolding reject_reason
reject_reason-IsBounded none fallback h = h
reject_reason-IsBounded (some reason) fallback h = (ground arith, ground arith)

-- The evidence for an accepted payment, and for one that is rejected.
abbrev pub Accepted : (status : ℕ) → Option VerifyResponse → Type 0
Accepted status body =
    (is_verdict status ≡ true)
    × (parsed : VerifyResponse) × (body ≡ some parsed)
    × (parsed.is_valid ≡ some true)

abbrev pub Refused : (status : ℕ) → Option VerifyResponse → Type 0
Refused status body =
    (is_verdict status ≡ true)
    × (parsed : VerifyResponse) × (body ≡ some parsed)
    × (parsed.is_valid ≡ some false)
    × (our_fault parsed.invalid_reason ≡ none)

accepted_answer :
    (is_valid : Option Bool) (fault reason : Option String) (status : ℕ)
    → answer_verify is_valid fault reason status ≡ ok tt
    → is_valid ≡ some true
accepted_answer (some true) fault reason status h = refl
accepted_answer (some false) none reason status h = cc
accepted_answer (some false) (some f) reason status h = cc
accepted_answer none fault reason status h = cc

err-eq-rejected :
    {A : Type 0} {a b : String}
    → ◌≡◌ {A = Result FacilitatorError A} (err (rejected a)) (err (rejected b))
    → a ≡ b
err-eq-rejected h = ground arith

refused_answer :
    (is_valid : Option Bool) (fault reason : Option String) (status : ℕ) (told : String)
    → answer_verify is_valid fault reason status ≡ err (rejected told)
    → (is_valid ≡ some false) × (fault ≡ none) × IsBounded told
refused_answer (some true) fault reason status told h = cc
refused_answer (some false) none reason status told h = (
  refl,
  refl,
  subst IsBounded (err-eq-rejected h) (
      reject_reason-IsBounded reason "payment verification failed"
        (unfold byte_len in (refl, omega arith))),
)
refused_answer (some false) (some f) reason status told h = cc
refused_answer none fault reason status told h = cc

accepted_body :
    (status : ℕ) (body : Option VerifyResponse)
    → read_verify status body ≡ ok tt
    → (parsed : VerifyResponse) × (body ≡ some parsed) × (parsed.is_valid ≡ some true)
accepted_body status none h = cc
accepted_body status (some parsed) h = (
  parsed,
  refl,
  accepted_answer parsed.is_valid (our_fault parsed.invalid_reason) parsed.invalid_reason status h,
)

refused_body :
    (status : ℕ) (body : Option VerifyResponse) (reason : String)
    → read_verify status body ≡ err (rejected reason)
    → ((parsed : VerifyResponse) × (body ≡ some parsed)
        × (parsed.is_valid ≡ some false)
        × (our_fault parsed.invalid_reason ≡ none))
      × IsBounded reason
refused_body status none reason h = cc
refused_body status (some parsed) reason h =
    let (invalid, ours, bounded) =
      refused_answer parsed.is_valid (our_fault parsed.invalid_reason) parsed.invalid_reason status
        reason h in
    ((parsed, refl, invalid, ours), bounded)

-- A payment is accepted only on a 2xx or 4xx answer that says `isValid: true`. It is blamed on the
-- client only on such an answer that says `isValid: false` for a reason that is not the gateway's
-- fault, and the reason that is passed on is not empty and at most 128 bytes.
pub verify-verdict :
    (status : ℕ) (body : Option VerifyResponse)
    → (verify status body ≡ ok tt → Accepted status body)
      × ((reason : String)
          → verify status body ≡ err (rejected reason)
          → Refused status body × IsBounded reason)
unfolding verify
verify-verdict status body = elim (Bool-cases (is_verdict status)) [
  | inl verdict ↦ (
    (λ h.
        let (parsed, read, valid) = accepted_body status body (ground arith) in
        (verdict, parsed, read, valid)),
    (λ reason h.
        let ((parsed, read, invalid, ours), bounded) =
          refused_body status body reason (ground arith) in
        ((verdict, parsed, read, invalid, ours), bounded)),
  )
  | inr other ↦ ((λ h. absurd (ground arith)), λ reason h. absurd (ground arith))
]
