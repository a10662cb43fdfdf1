-- ===== src/Access/KeySet/Setup.antt =====
-- What a set of keys that is built holds, for `with_keys` of obolus/src/access.rs.
use obolus.Prelude.{
  ◌≡◌, ◌≤◌, ◌<◌, inl, inr, refl, ap, sym, String, Bool, true, false, ◌&&◌, not, Option, none, some,
  List, [], ◌∷◌, ◌++◌, any, length, suc, arith, Bool-cases, ltb, if◌then◌else◌, is_empty, All,
  contains, str_eq, is_some, subst,
}
use obolus.Prelude.Results.{ok, err, >>=-eq-ok, ok-injective}
use obolus.Payment.Codec.{Bytes}
use obolus.Access.KeySet.{
  VerifyingKey, PublicKeyTokenVerifier, Jwt, is_kid, has_kid, audience_enforced, with_keys,
  arm_keys, arm_key, see_kid, or_unusable, check_count, material_of, bytes_eq, repeated_material,
  max_keys, validation_for,
}
use obolus.Access.KeySet.Rotation.{any-append}

-- A name that is not empty and not among those seen, or none.
abbrev is_new : List String → Option String → Bool
is_new seen none = true
is_new seen (some kid) = not (is_empty kid) && not (contains kid seen)

abbrev pub is_empty_kid : Option String → Bool
is_empty_kid none = false
is_empty_kid (some kid) = is_empty kid

-- No two keys of the list share a name, and no name is empty.
abbrev pub HasDistinctKids : List VerifyingKey → Type 0
HasDistinctKids [] = Unit
HasDistinctKids (k ∷ ks) =
    (is_empty_kid k.kid ≡ false) × (any (has_kid k.kid) ks ≡ false) × HasDistinctKids ks

abbrev extended : List String → Option String → List String
extended seen none = seen
extended seen (some kid) = seen ++ (kid ∷ [])

see_kid-eq-ok :
    (seen : List String) (kid : Option String) {after : List String}
    → see_kid seen kid ≡ ok after
    → (extended seen kid ≡ after) × (is_new seen kid ≡ true)
see_kid-eq-ok seen none h = (ground arith, refl)
see_kid-eq-ok seen (some kid) h = ground arith

or_unusable-eq-ok :
    (kid : Option String) (key : Option Bytes) {k : VerifyingKey}
    → or_unusable kid key ≡ ok k
    → k.kid ≡ kid
or_unusable-eq-ok kid none h = cc
or_unusable-eq-ok kid (some key) h = ground arith

arm_key-eq-ok :
    (jwt : Jwt) (armed : List Bytes) (kid : Option String) (pem : Bytes) {k : VerifyingKey}
    → arm_key jwt armed kid pem ≡ ok k
    → k.kid ≡ kid
arm_key-eq-ok jwt armed kid pem {k} h = elim (Bool-cases (any (bytes_eq (material_of pem)) armed)) [
  | inl p ↦ ground arith
  | inr p ↦ or_unusable-eq-ok kid (jwt.from_ed_pem pem) (
      subst
        (λ b.
          (if b then err (repeated_material kid) else or_unusable kid (jwt.from_ed_pem pem)) ≡ ok k)
        p h)
]

-- What is new after a name is new before it, and does not have the name.
is_new-extended :
    (seen : List String) (kid own : Option String)
    → is_new (extended seen kid) own ≡ true
    → (is_new seen own ≡ true) × (is_kid kid own ≡ false)
is_new-extended seen none own h = (h, refl)
is_new-extended seen (some kid) none h = (refl, refl)
is_new-extended seen (some kid) (some own) h =
    let parted = any-append (λ x. str_eq x own) seen (kid ∷ []) in ground arith

nonempty :
    (seen : List String) (kid : Option String) → is_new seen kid ≡ true → is_empty_kid kid ≡ false
nonempty seen none h = refl
nonempty seen (some kid) h = ground arith

All-extended :
    (seen : List String) (kid : Option String) (ks : List VerifyingKey)
    → All (λ k. is_new (extended seen kid) k.kid ≡ true) ks
    → All (λ k. is_new seen k.kid ≡ true) ks × (any (has_kid kid) ks ≡ false)
All-extended seen kid [] h = (tt, refl)
All-extended seen kid (k ∷ ks) h =
    let (fresh, apart) = is_new-extended seen kid k.kid h.0 in
    let (hs, others) = All-extended seen kid ks h.1 in ((fresh, hs), rw (apart, others) refl)

abbrev IsArmed : List String → List (Option String × Bytes) → List VerifyingKey → Type 0
IsArmed seen keys parsed =
    (length parsed ≡ length keys)
    × HasDistinctKids parsed
    × All (λ k. is_new seen k.kid ≡ true) parsed

IsArmed-∷ :
    (seen : List String) (kid : Option String) (pem : Bytes) (k : VerifyingKey)
    (rest : List (Option String × Bytes)) (others : List VerifyingKey)
    → k.kid ≡ kid
    → is_new seen kid ≡ true
    → IsArmed (extended seen kid) rest others
    → IsArmed seen ((kid, pem) ∷ rest) (k ∷ others)
IsArmed-∷ seen kid pem k rest others same new (count, distinct, fresh) =
    let (before, apart) = All-extended seen kid others fresh in
    (
      ap suc count,
      (rw same (nonempty seen kid new), rw same apart, distinct),
      (rw same new, before),
    )

arm_keys-IsArmed :
    (jwt : Jwt) (seen : List String) (armed : List Bytes) (keys : List (Option String × Bytes))
    {parsed : List VerifyingKey}
    → arm_keys jwt seen armed keys ≡ ok parsed
    → IsArmed seen keys parsed
unfolding arm_keys
arm_keys-IsArmed jwt seen armed [] h = subst (IsArmed seen []) (ok-injective h) (refl, tt, tt)
arm_keys-IsArmed jwt seen armed ((kid, pem) ∷ rest) h =
    let (after, saw, h1) = >>=-eq-ok (see_kid seen kid) _ h in
    let (k, did, h2) = >>=-eq-ok (arm_key jwt armed kid pem) _ h1 in
    let (others, more, last) =
      >>=-eq-ok (arm_keys jwt after (armed ++ (material_of pem ∷ [])) rest) _ h2 in
    let (same, new) = see_kid-eq-ok seen kid saw in
    subst (IsArmed seen ((kid, pem) ∷ rest)) (ok-injective last) (
      IsArmed-∷ seen kid pem k rest others (arm_key-eq-ok jwt armed kid pem did) new (
        subst (λ names. IsArmed names rest others) (sym same)
          (arm_keys-IsArmed jwt after (armed ++ (material_of pem ∷ [])) rest more)))

check_count-bounds :
    (keys : List (Option String × Bytes)) {u : Unit {0}}
    → check_count keys ≡ ok u
    → (0 < length keys) × (length keys ≤ max_keys)
check_count-bounds [] h = cc
check_count-bounds (k ∷ ks) h = elim (Bool-cases (ltb max_keys (length (k ∷ ks)))) [
  | inl p ↦ ground arith
  | inr p ↦ ground arith
]

audience-enforced :
    (issuer : String) (audience : Option String)
    → audience_enforced (validation_for issuer audience) ≡ is_some audience
audience-enforced issuer none = refl
audience-enforced issuer (some audience) = refl

-- What `with_keys` establishes of a verifier.
abbrev pub IsKeySet :
    List (Option String × Bytes) → (audience : Option String) → PublicKeyTokenVerifier → Type 0
IsKeySet keys audience verifier =
    (0 < length verifier.keys)
    × (length verifier.keys ≤ max_keys)
    × (length verifier.keys ≡ length keys)
    × HasDistinctKids verifier.keys
    × (audience_enforced verifier.validation ≡ is_some audience)

-- A set of keys that is built holds as many keys as it was given, at least one and at most 8; no
-- name is empty and no two keys share one; and an audience is enforced exactly where one was given.
pub with_keys-IsKeySet :
    (jwt : Jwt) (keys : List (Option String × Bytes)) (issuer : String) (audience : Option String)
    {verifier : PublicKeyTokenVerifier}
    → with_keys jwt keys issuer audience ≡ ok verifier
    → IsKeySet keys audience verifier
unfolding with_keys
with_keys-IsKeySet jwt keys issuer audience h =
    let (u, counted, h1) = >>=-eq-ok (check_count keys) _ h in
    let (parsed, armed, h2) = >>=-eq-ok (arm_keys jwt [] [] keys) _ h1 in
    let (some_key, few) = check_count-bounds keys counted in
    let (count, distinct, new) = arm_keys-IsArmed jwt [] [] keys armed in
    subst (IsKeySet keys audience) (ok-injective h2) (
      omega (arith, count, some_key),
      omega (arith, count, few),
      count,
      distinct,
      audience-enforced issuer audience,
    )
