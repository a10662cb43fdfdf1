-- ===== src/Access/KeySet/Rotation.antt =====
-- Which tokens a set of keys honours, for `verify` and `with_keys` of obolus/src/access.rs.
use obolus.Prelude.{
  ◌⊎◌, ◌≡◌, inl, inr, refl, ap, sym, ◌∙◌, String, Bool, true, false, ◌||◌, not, Option, none, some,
  List, [], ◌∷◌, ◌++◌, any, all, filter, arith, Bool-cases, Option-cases, if◌then◌else◌, is_some,
  All,
}
use obolus.Prelude.Results.{Result, ok, err}
use obolus.Access.KeySet.{
  VerifyingKey, Validation, PublicKeyTokenVerifier, ErrorKind, invalid_signature, invalid_audience,
  another, Jwt, has_kid, ordered_by, keeping, rejection, told, rejected, audience_enforced,
  try_keys, verify_token,
}

pub any-append :
    {A : Type 0} (p : A → Bool) (xs ys : List A) → any p (xs ++ ys) ≡ (any p xs || any p ys)
any-append p [] ys = refl
any-append p (x ∷ xs) ys = rw (any-append p xs ys) (ground arith)

-- A test on a list does not see how a second test parts the list.
any-filter :
    (p q : VerifyingKey → Bool) (ks : List VerifyingKey)
    → (any p (filter q ks) || any p (filter (λ k. not (q k)) ks)) ≡ any p ks
any-filter p q [] = refl
any-filter p q (k ∷ ks) = elim (Bool-cases (q k)) [
  | inl h ↦ rw (h, sym (any-filter p q ks)) (ground arith)
  | inr h ↦ rw (h, sym (any-filter p q ks)) (ground arith)
]

module _ (P : VerifyingKey → Type 0) where
  append-All : (xs ys : List VerifyingKey) → All P (xs ++ ys) → All P xs × All P ys
  append-All [] ys h = (tt, h)
  append-All (x ∷ xs) ys h = let (hs, gs) = append-All xs ys h.1 in ((h.0, hs), gs)

  All-step :
      (b : Bool) (k : VerifyingKey) (xs ys : List VerifyingKey)
      → All P (if b then k ∷ xs else xs)
      → All P (if not b then k ∷ ys else ys)
      → P k × All P xs × All P ys
  All-step true k xs ys h g = (h.0, h.1, g)
  All-step false k xs ys h g = (g.0, h, g.1)

  All-filter :
      (q : VerifyingKey → Bool) (ks : List VerifyingKey)
      → All P (filter q ks)
      → All P (filter (λ k. not (q k)) ks)
      → All P ks
  All-filter q [] h g = tt
  All-filter q (k ∷ ks) h g =
      let (first, hs, gs) = All-step (q k) k _ _ h g in (first, All-filter q ks hs gs)

abbrev pub honours : Jwt → Validation → String → VerifyingKey → Bool
honours jwt v token k = not (is_some (jwt.decode token k.key v))

abbrev pub is_ok : {E A : Type 0} → Result E A → Bool
is_ok (ok _) = true
is_ok (err _) = false

abbrev IsSilent : Option ErrorKind → Type 0
IsSilent reported = (reported ≡ none) ⊎ (reported ≡ some invalid_signature)

keeping-mismatch :
    (reported : Option ErrorKind) (e : ErrorKind)
    → keeping reported e ≡ invalid_signature
    → (e ≡ invalid_signature) × IsSilent reported
keeping-mismatch none e h = (h, inl refl)
keeping-mismatch (some invalid_signature) invalid_signature h = (refl, inr refl)
keeping-mismatch (some invalid_signature) invalid_audience h = cc
keeping-mismatch (some invalid_signature) (another s) h = cc
keeping-mismatch (some invalid_audience) e h = ground arith
keeping-mismatch (some (another s)) e h = ground arith

held-some : {e : ErrorKind} → IsSilent (some e) → e ≡ invalid_signature
held-some (inl h) = cc
held-some (inr h) = cc

module _ (jwt : Jwt) (v : Validation) (token : String) where
  try_keys-any :
      (reported : Option ErrorKind) (ks : List VerifyingKey)
      → is_ok (try_keys jwt v token reported ks) ≡ any (honours jwt v token) ks
  unfolding try_keys
  try_keys-any reported [] = refl
  try_keys-any reported (k ∷ ks) = elim (Option-cases (jwt.decode token k.key v)) [
    | inl p ↦ rw p refl
    | inr (e, p) ↦ rw p (try_keys-any (some (keeping reported e)) ks)
  ]

  rejection-mismatch :
      (reported : Option ErrorKind) (enforced : Bool)
      → rejection reported enforced ≡ told invalid_signature
      → IsSilent reported
  rejection-mismatch none enforced h = inl refl
  rejection-mismatch (some invalid_signature) enforced h = inr refl
  rejection-mismatch (some invalid_audience) true h = cc
  rejection-mismatch (some invalid_audience) false h = cc
  rejection-mismatch (some (another s)) enforced h = cc

  -- A bare mismatch of the signature is reported only if no error named a cause.
  try_keys-mismatch :
      (reported : Option ErrorKind) (ks : List VerifyingKey)
      → try_keys jwt v token reported ks ≡ err (rejected (told invalid_signature))
      → IsSilent reported × All (λ k. jwt.decode token k.key v ≡ some invalid_signature) ks
  unfolding try_keys
  try_keys-mismatch reported [] h = (rejection-mismatch reported (audience_enforced v) cc, tt)
  try_keys-mismatch reported (k ∷ ks) h = elim (Option-cases (jwt.decode token k.key v)) [
    | inl p ↦ cc
    | inr (e, p) ↦
        let (held, mismatched) = try_keys-mismatch (some (keeping reported e)) ks cc in
        let (same, silent) = keeping-mismatch reported e (held-some held) in
        (silent, (p ∙ ap some same, mismatched))
  ]

-- Whatever its header says, a token is honoured exactly when some key of the set honours it.
pub verify_token-honours :
    (jwt : Jwt) (verifier : PublicKeyTokenVerifier) (token : String)
    → is_ok (verify_token jwt verifier token)
      ≡ any (honours jwt verifier.validation token) verifier.keys
unfolding verify_token ordered_by
verify_token-honours jwt verifier token =
    try_keys-any jwt verifier.validation token none
      (ordered_by (jwt.header_kid token) verifier.keys)
    ∙ any-append (honours jwt verifier.validation token) _ _
    ∙ any-filter (honours jwt verifier.validation token) (has_kid (jwt.header_kid token))
        verifier.keys

-- A token is turned away with nothing more than a mismatch of its signature only where every key of
-- the set says so: an error that names a cause is never lost.
verify_token-mismatch :
    (jwt : Jwt) (verifier : PublicKeyTokenVerifier) (token : String)
    → verify_token jwt verifier token ≡ err (rejected (told invalid_signature))
    → All (λ k. jwt.decode token k.key verifier.validation ≡ some invalid_signature) verifier.keys
unfolding verify_token ordered_by
verify_token-mismatch jwt verifier token h =
    let (silent, all) =
      try_keys-mismatch jwt verifier.validation token none
        (ordered_by (jwt.header_kid token) verifier.keys) h in
    let (named, others) = append-All _ _ _ all in All-filter _ _ verifier.keys named others
