-- ===== src/Gateway/Caps.antt =====
-- What the output cap lets through, for `output_cap_refusal` of obolus/src/gateway.rs.
use obolus.Prelude.{
  ℕ, ◌<◌, ◌≤◌, ◌≡◌, ◌⊎◌, inl, inr, refl, Bool, true, false, Option, none, some, List, All, arith,
  Bool-cases, if◌then◌else◌, not,
}
use obolus.Backends.{Kind, ollama, openai_compat, anthropic_compat}
use obolus.Request.{RequestShape, parse}
use obolus.Request.Keys.{folds_to}
use obolus.Request.Reader.{Entry, map, Document}
use obolus.Request.Pass.{MaxTokens, absent, invalid, limit}
use obolus.Request.Limits.{last_judged, parse-no_variants, parse-no_lifts, parse-last_limit}
use obolus.Gateway.{CapRefusal, lifts, limit_refusal, lifted_or, output_cap_refusal}

limit_refusal-none :
    (asked : MaxTokens) (cap : ℕ)
    → limit_refusal asked cap ≡ none
    → (k : ℕ) × (asked ≡ limit k) × (0 < k) × (k ≤ cap)
limit_refusal-none absent cap h = cc
limit_refusal-none invalid cap h = cc
limit_refusal-none (limit k) cap h = (k, refl, ground arith, ground arith)

-- The three fields that could lift the output past `max_tokens` are not given.
pub record HasNoLifts (request : RequestShape) : Type 0 where
  pub completion : request.max_completion_tokens ≡ false
  pub others : request.n_other_than_one ≡ false
  pub best : request.best_of ≡ false

lifts-none :
    (request : RequestShape) (kind : Kind)
    → lifts request kind ≡ none
    → (kind ≡ ollama) ⊎ HasNoLifts request
lifts-none request ollama h = inl refl
lifts-none request openai_compat h =
    inr (record { completion = ground arith; others = ground arith; best = ground arith })
lifts-none request anthropic_compat h =
    inr (record { completion = ground arith; others = ground arith; best = ground arith })

lifted_or-none : (a b : Option CapRefusal) → lifted_or a b ≡ none → (a ≡ none) × (b ≡ none)
lifted_or-none none b h = (refl, h)
lifted_or-none (some a) b h = cc

-- A request that passes the cap was read in full and asks for at least one output token and at most
-- the cap; and on a backend that is not Ollama it has no `max_completion_tokens`, no `best_of` and
-- no `n` other than 1.
output_cap_refusal-none :
    (request : RequestShape) (kind : Kind) (cap : ℕ)
    → output_cap_refusal request kind cap ≡ none
    → (request.read_in_full ≡ true)
      × ((k : ℕ) × (request.max_tokens ≡ limit k) × (0 < k) × (k ≤ cap))
      × ((kind ≡ ollama) ⊎ HasNoLifts request)
unfolding output_cap_refusal
output_cap_refusal-none request kind cap h = elim (Bool-cases request.read_in_full) [
  | inl read ↦
      let (nothing, bounded) =
        lifted_or-none (lifts request kind) (limit_refusal request.max_tokens cap)
          (in_full _ request.read_in_full read h) in
      (read, limit_refusal-none request.max_tokens cap bounded, lifts-none request kind nothing)
  | inr unread ↦ absurd (ground arith)
]
  where
    in_full :
        {rest : Option CapRefusal} (bad : CapRefusal) (read : Bool)
        → read ≡ true
        → (if not read then some bad else rest) ≡ none
        → rest ≡ none
    in_full bad true e g = g
    in_full bad false e g = cc

-- What an object that passes the checks holds: one reading of each limit, whoever reads it.
abbrev pub IsBoundedBody : List Entry → (cap : ℕ) → Type 0
IsBoundedBody es cap =
    ((k : ℕ) × (last_judged "max_tokens" es ≡ some (limit k)) × (0 < k) × (k ≤ cap))
    × All
        (λ e.
          (folds_to e.key "model" ≡ true → e.key ≡ "model")
          × (folds_to e.key "max_tokens" ≡ true → e.key ≡ "max_tokens"))
        es

abbrev pub IsSingleCompletion : List Entry → Type 0
IsSingleCompletion es =
    All
      (λ e.
        (folds_to e.key "max_completion_tokens" ≡ false)
        × (folds_to e.key "best_of" ≡ false)
        × (folds_to e.key "n" ≡ true → e.key ≡ "n"))
      es
    × ((last_judged "n" es ≡ none) ⊎ (last_judged "n" es ≡ some (limit 1)))

-- Where a body is a JSON object and the request passes the case check and the output cap, every key
-- that a case-insensitive reader takes for `model` or `max_tokens` is spelt exactly so, and the last
-- `max_tokens` is at least 1 and at most the cap; on a backend that is not Ollama, no key reads as
-- `max_completion_tokens` or `best_of`, and the last `n`, if any, is 1.
pub cap-bounds_body :
    (d : Document) (es : List Entry) (closed : Bool) (kind : Kind) (cap : ℕ)
    → d.shape ≡ map es closed
    → (parse d).case_variant ≡ none
    → output_cap_refusal (parse d) kind cap ≡ none
    → IsBoundedBody es cap × ((kind ≡ ollama) ⊎ IsSingleCompletion es)
cap-bounds_body d es closed kind cap shape clear h =
    let (read, (k, asked, positive, within_cap), lifted) =
      output_cap_refusal-none (parse d) kind cap h in
    (
      (
        (k, parse-last_limit d es closed shape read k asked, positive, within_cap),
        parse-no_variants d es closed shape read clear,
      ),
      elim lifted [
        | inl keyless ↦ inl keyless
        | inr none_given ↦ inr (
            parse-no_lifts d es closed shape read none_given.completion none_given.best
              none_given.others)
      ],
    )
