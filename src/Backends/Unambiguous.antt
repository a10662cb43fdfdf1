-- ===== src/Backends/Unambiguous.antt =====
-- What `check_registry` makes of the choice of `Backends::route`.
use obolus.Prelude.{
  String, ◌≡◌, ◌⊎◌, inl, inr, subst, Bool, true, false, some, List, [], ◌∷◌, All, here, there, any,
  find, contains, str_eq, lt_rank, arith, eq_iff, Bool-cases,
}
use obolus.Prelude.Results.{ok, >>-eq-ok}
use obolus.Backends.{Backend, is_catch_all, serves, route}
use obolus.Backends.Registry.{
  eq_rank, clashes, refuse, check_ids, check_catch_all, check_models, check_routes, check_registry,
}
use obolus.Backends.Routing.{In, route-best}

abbrev Pairwise : (Backend → Backend → Type 0) → List Backend → Type 0
Pairwise R [] = Unit
Pairwise R (b ∷ bs) = All (R b) bs × Pairwise R bs

-- Two backends that serve the model have different ranks.
abbrev Apart : String → Backend → Backend → Type 0
Apart model a b =
    serves model a ≡ true → serves model b ≡ true → eq_rank b.precedence a.precedence ≡ false

find-none :
    (bs : List Backend)
    → refuse (find is_catch_all bs) ≡ ok tt
    → All (λ b. is_catch_all b ≡ false) bs
find-none [] h = tt
find-none (b ∷ bs) h = elim (Bool-cases (is_catch_all b)) [
  | inl holds ↦ absurd (ground arith)
  | inr fails ↦ (fails, find-none bs (ground arith))
]

check_models-apart :
    (a : Backend) (bs : List Backend) (models : List String) (model : String)
    → check_models a bs models ≡ ok tt
    → contains model models ≡ true
    → any (clashes a model) bs ≡ false
unfolding check_models
check_models-apart a bs [] model h c = cc
check_models-apart a bs (m ∷ ms) model h c = elim (Bool-cases (any (clashes a m) bs)) [
  | inl clash ↦ absurd (ground arith)
  | inr clear ↦ elim (Bool-cases (str_eq m model)) [
    | inl same ↦ subst (λ x. any (clashes a x) bs ≡ false) ((eq_iff m model).0 same) clear
    | inr differs ↦ check_models-apart a bs ms model (ground arith) (ground arith)
  ]
]

any-none : (p : Backend → Bool) (bs : List Backend) → any p bs ≡ false → All (λ b. p b ≡ false) bs
any-none p [] h = tt
any-none p (b ∷ bs) h = elim (Bool-cases (p b)) [
  | inl holds ↦ absurd (ground arith)
  | inr fails ↦ (fails, any-none p bs (ground arith))
]

Apart-from :
    (model : String) (a : Backend) (bs : List Backend)
    → is_catch_all a ≡ false
    → All (λ b. is_catch_all b ≡ false) bs
    → (contains model a.models ≡ true → All (λ b. clashes a model b ≡ false) bs)
    → All (Apart model a) bs
Apart-from model a [] named all_named clear = tt
Apart-from model a (b ∷ bs) named all_named clear = (
  (λ s t. ground (arith, (clear (ground arith)).0)),
  Apart-from model a bs named all_named.1 (λ c. (clear c).1),
)

check_routes-Apart :
    (model : String) (bs : List Backend)
    → All (λ b. is_catch_all b ≡ false) bs
    → check_routes bs ≡ ok tt
    → Pairwise (Apart model) bs
unfolding check_routes
check_routes-Apart model [] named h = tt
check_routes-Apart model (a ∷ bs) named h =
    let (first, rest) = >>-eq-ok (check_models a bs a.models) (check_routes bs) h in
    (
      Apart-from model a bs named.0 named.1
          (λ c. any-none _ bs (check_models-apart a bs a.models model first c)),
      check_routes-Apart model bs named.1 rest,
    )

check_registry-Apart :
    (model : String) (bs : List Backend) → check_registry bs ≡ ok tt → Pairwise (Apart model) bs
unfolding check_registry
check_registry-Apart model [] h = tt
check_registry-Apart model (b ∷ []) h = (tt, tt)
check_registry-Apart model (a ∷ b ∷ bs) h =
    let (ids, rest) = >>-eq-ok (check_ids (a ∷ b ∷ bs)) _ h in
    let (catch, routes) =
      >>-eq-ok (check_catch_all (a ∷ b ∷ bs)) (check_routes (a ∷ b ∷ bs)) rest in
    check_routes-Apart model (a ∷ b ∷ bs) (find-none (a ∷ b ∷ bs) (crowd catch)) routes
  where
    crowd : check_catch_all (a ∷ b ∷ bs) ≡ ok tt → refuse (find is_catch_all (a ∷ b ∷ bs)) ≡ ok tt
    crowd c = ground arith

flip-Apart : (model : String) (a b : Backend) → Apart model a b → Apart model b a
flip-Apart model a b h t s = ground (arith, h s t)

against :
    (model : String) (x b : Backend) (bs : List Backend)
    → x ≡ b
    → All (Apart model x) bs
    → All (λ o. (o ≡ b) ⊎ Apart model b o) bs
against model x b [] same h = tt
against model x b (o ∷ bs) same h =
    (inr (subst (λ y. Apart model y o) same h.0), against model x b bs same h.1)

Pairwise-In :
    (model : String) (b : Backend) (bs : List Backend)
    → Pairwise (Apart model) bs
    → In b bs
    → All (λ o. (o ≡ b) ⊎ Apart model b o) bs
Pairwise-In model b [] h i = elim i [ ]
Pairwise-In model b (x ∷ bs) h (here same) = (inl same, against model x b bs same h.0)
Pairwise-In model b (x ∷ bs) h (there later) =
    (inr (flip-Apart model x b (at model x b bs h.0 later)), Pairwise-In model b bs h.1 later)
  where
    at :
        (model : String) (x b : Backend) (bs : List Backend)
        → All (Apart model x) bs
        → In b bs
        → Apart model x b
    at model x b [] h i = elim i [ ]
    at model x b (o ∷ bs) h (here same) = subst (Apart model x) same h.0
    at model x b (o ∷ bs) h (there later) = at model x b bs h.1 later

outranks :
    (model : String) (b : Backend) (bs : List Backend)
    → serves model b ≡ true
    → All (λ o. serves model o ≡ true → lt_rank b.precedence o.precedence ≡ false) bs
    → All (λ o. (o ≡ b) ⊎ Apart model b o) bs
    → All (λ o. serves model o ≡ true → (o ≡ b) ⊎ (lt_rank o.precedence b.precedence ≡ true)) bs
outranks model b [] s top apart = tt
outranks model b (o ∷ bs) s top apart = (
  (λ t. elim apart.0 [
    | inl same ↦ inl same
    | inr differs ↦ inr (ground (arith, differs s t, top.0 t))
  ]),
  outranks model b bs s top.1 apart.1,
)

-- In a registry that the boot check admits, the backend a named model is routed to strictly
-- outranks every other backend that serves the model, so the choice is no tie.
pub route-unambiguous :
    (bs : List Backend) (model : String) (b : Backend)
    → check_registry bs ≡ ok tt
    → route bs (some model) ≡ ok b
    → All (λ o. serves model o ≡ true → (o ≡ b) ⊎ (lt_rank o.precedence b.precedence ≡ true)) bs
route-unambiguous bs model b admitted h =
    let (present, s, top) = route-best bs model b h in
    outranks model b bs s top
      (Pairwise-In model b bs (check_registry-Apart model bs admitted) present)
