-- ===== src/Backends/Routing.antt =====
-- Which backend `Backends::route` picks.
use obolus.Prelude.{
  String, ◌≡◌, ◌↔◌, ◌⊎◌, inl, inr, refl, sym, subst, ap, ◌∙◌, Bool, true, false, Option, none, some,
  List, [], ◌∷◌, All, Any, here, there, filter, lt_rank, lt_rank_irrefl, lt_rank_trans,
  lt_rank_asym, arith, Bool-cases, if◌then◌else◌,
}
use obolus.Prelude.Results.{ok, err, ok_or, ok_or-eq-ok}
use obolus.Backends.{Backend, unknown_model, serves, later_max, max_from, max_by_precedence, route}

abbrev pub In : Backend → List Backend → Type 0
In b bs = Any (λ x. x ≡ b) bs

-- Nothing in the list outranks `b`.
abbrev pub Tops : Backend → List Backend → Type 0
Tops b bs = All (λ o. lt_rank b.precedence o.precedence ≡ false) bs

later_max-tops :
    (a b : Backend)
    → (lt_rank (later_max a b).precedence a.precedence ≡ false)
      × (lt_rank (later_max a b).precedence b.precedence ≡ false)
later_max-tops a b = ground (
  arith,
  lt_rank_irrefl a.precedence,
  lt_rank_irrefl b.precedence,
  lt_rank_asym b.precedence a.precedence,
)

later_max-either : (a b : Backend) → (later_max a b ≡ a) ⊎ (later_max a b ≡ b)
later_max-either a b = elim (Bool-cases (lt_rank b.precedence a.precedence)) [
  | inl lower ↦ inl (rw lower refl)
  | inr other ↦ inr (rw other refl)
]

max_from-Tops :
    (best : Backend) (bs : List Backend)
    → (lt_rank (max_from best bs).precedence best.precedence ≡ false) × Tops (max_from best bs) bs
unfolding max_from
max_from-Tops best [] = (lt_rank_irrefl best.precedence, tt)
max_from-Tops best (b ∷ bs) =
    let (top, rest) = max_from-Tops (later_max best b) bs in
    let (l, r) = later_max-tops best b in
    (
      lt_rank_trans best.precedence (later_max best b).precedence _ l top,
      (lt_rank_trans b.precedence (later_max best b).precedence _ r top, rest),
    )

max_from-In : (best : Backend) (bs : List Backend) → In (max_from best bs) (best ∷ bs)
unfolding max_from
max_from-In best [] = here refl
max_from-In best (b ∷ bs) = elim (max_from-In (later_max best b) bs) [
  | here first ↦ elim (later_max-either best b) [
    | inl left ↦ here (sym left ∙ first)
    | inr right ↦ there (here (sym right ∙ first))
  ]
  | there later ↦ there (there later)
]

filter-In :
    (p : Backend → Bool) (b : Backend) (bs : List Backend)
    → In b (filter p bs)
    → In b bs × (p b ≡ true)
filter-In p b [] h = elim h [ ]
filter-In p b (x ∷ bs) h = elim (Bool-cases (p x)) [
  | inl holds ↦ elim (subst (λ t. In b (if t then x ∷ filter p bs else filter p bs)) holds h) [
    | here same ↦ (here same, ap p (sym same) ∙ holds)
    | there later ↦ later_too (filter-In p b bs later)
  ]
  | inr fails ↦
      later_too
        (filter-In p b bs (subst (λ t. In b (if t then x ∷ filter p bs else filter p bs)) fails h))
]
  where
    later_too : In b bs × (p b ≡ true) → In b (x ∷ bs) × (p b ≡ true)
    later_too (i, t) = (there i, t)

filter-All :
    (p : Backend → Bool) (P : Backend → Type 0) (bs : List Backend)
    → All P (filter p bs)
    → All (λ o. p o ≡ true → P o) bs
filter-All p P [] h = tt
filter-All p P (x ∷ bs) h = elim (Bool-cases (p x)) [
  | inl holds ↦
      let both = subst (λ t. All P (if t then x ∷ filter p bs else filter p bs)) holds h in
      ((λ _. both.0), filter-All p P bs both.1)
  | inr fails ↦
      let rest = subst (λ t. All P (if t then x ∷ filter p bs else filter p bs)) fails h in
      ((λ t. absurd (ground arith)), filter-All p P bs rest)
]

filter-none :
    (p : Backend → Bool) (bs : List Backend)
    → max_by_precedence (filter p bs) ≡ none
    → All (λ b. p b ≡ false) bs
unfolding max_by_precedence
filter-none p [] h = tt
filter-none p (x ∷ bs) h = elim (Bool-cases (p x)) [
  | inl holds ↦ absurd (ground arith)
  | inr fails ↦ (fails, filter-none p bs (ground arith))
]

none-filter :
    (p : Backend → Bool) (bs : List Backend) → All (λ b. p b ≡ false) bs → filter p bs ≡ []
none-filter p [] h = refl
none-filter p (x ∷ bs) h = rw h.0 (none-filter p bs h.1)

max_by_precedence-best :
    (bs : List Backend) (b : Backend) → max_by_precedence bs ≡ some b → In b bs × Tops b bs
unfolding max_by_precedence
max_by_precedence-best [] b h = cc
max_by_precedence-best (x ∷ bs) b h = (
  subst (λ r. In r (x ∷ bs)) (won h) (max_from-In x bs),
  subst (λ r. Tops r (x ∷ bs)) (won h) (max_from-Tops x bs),
)
  where
    won : some (max_from x bs) ≡ some b → max_from x bs ≡ b
    won e = ground arith

-- A request that names a model is routed to a backend of the registry that serves the model, and no
-- backend that serves it has a higher precedence.
pub route-best :
    (bs : List Backend) (model : String) (b : Backend)
    → route bs (some model) ≡ ok b
    → In b bs
      × (serves model b ≡ true)
      × All (λ o. serves model o ≡ true → lt_rank b.precedence o.precedence ≡ false) bs
unfolding route
route-best bs model b h =
    let (present, top) =
      max_by_precedence-best (filter (serves model) bs) b (ok_or-eq-ok _ (unknown_model model) h) in
    let (i, s) = filter-In (serves model) b bs present in (i, s, filter-All (serves model) _ bs top)

-- A named model is refused, as unknown, exactly when no backend serves it.
pub route-unknown :
    (bs : List Backend) (model : String)
    → (route bs (some model) ≡ err (unknown_model model)) ↔ All (λ b. serves model b ≡ false) bs
unfolding route max_by_precedence
route-unknown bs model = (
  (λ h. filter-none (serves model) bs (missing (max_by_precedence (filter (serves model) bs)) h)),
  (λ h. rw (none-filter (serves model) bs h) refl),
)
  where
    missing :
        (o : Option Backend) → ok_or o (unknown_model model) ≡ err (unknown_model model) → o ≡ none
    missing none h = refl
    missing (some b) h = cc
