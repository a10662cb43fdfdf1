-- ===== src/Arming/Guard.antt =====
-- What the guard lets a gateway advertise.
use obolus.Prelude.{
  String, ◌≡◌, ◌⊎◌, inl, inr, refl, sym, subst, ◌∙◌, Bool, true, false, ◌&&◌, ◌||◌, not, List, [],
  ◌∷◌, ◌++◌, All, All-append, filter, contains, str_eq, arith, eq_iff, eq_refl, Bool-cases,
  if◌then◌else◌,
}
use obolus.Prelude.Results.{ok}
use obolus.Payment.{PaymentRequirements}
use obolus.Arming.{
  is_provably_testnet, ArmedRequirements, noting, verdict, unproven_from, advertises, stray,
  check_arming,
}

-- A network that the gateway may advertise.
abbrev pub MayAdvertise : (armed : List String) → String → Type 0
MayAdvertise armed network = (is_provably_testnet network ≡ true) ⊎ (contains network armed ≡ true)

contains-append :
    (a b : String) (xs : List String) → contains a (xs ++ (b ∷ [])) ≡ contains a xs || str_eq b a
contains-append a b [] = ground arith
contains-append a b (x ∷ xs) = ground (arith, contains-append a b xs)

-- What is found stays found, and every network that is not provably testnet is found.
noting-keeps :
    (network n : String) (found : List String)
    → contains n found ≡ true
    → contains n (noting network found) ≡ true
noting-keeps network n found h =
    grown (not (is_provably_testnet network) && not (contains network found))
  where
    grown : (more : Bool) → contains n (if more then found ++ (network ∷ []) else found) ≡ true
    grown true = contains-append n network found ∙ rw h refl
    grown false = h

noting-finds :
    (network : String) (found : List String)
    → (is_provably_testnet network ≡ true) ⊎ (contains network (noting network found) ≡ true)
noting-finds network found = elim (Bool-cases (is_provably_testnet network)) [
  | inl testnet ↦ inl testnet
  | inr unproven ↦ elim (Bool-cases (contains network found)) [
    | inl known ↦ inr (noting-keeps network network found known)
    | inr fresh ↦ inr (
        rw (unproven, fresh)
          (contains-append network network found ∙ rw (fresh, eq_refl network) refl))
  ]
]

unproven_from-keeps :
    (rs : List PaymentRequirements) (found : List String) (n : String)
    → contains n found ≡ true
    → contains n (unproven_from found rs) ≡ true
unfolding unproven_from
unproven_from-keeps [] found n h = h
unproven_from-keeps (r ∷ rs) found n h =
    unproven_from-keeps rs (noting r.network found) n (noting-keeps r.network n found h)

unproven_from-covers :
    (rs : List PaymentRequirements) (found : List String)
    → All
        (λ r.
          (is_provably_testnet r.network ≡ true)
          ⊎ (contains r.network (unproven_from found rs) ≡ true))
        rs
unfolding unproven_from
unproven_from-covers [] found = tt
unproven_from-covers (r ∷ rs) found = (
  elim (noting-finds r.network found) [
    | inl testnet ↦ inl testnet
    | inr known ↦ inr (unproven_from-keeps rs (noting r.network found) r.network known)
  ],
  unproven_from-covers rs (noting r.network found),
)

-- Nothing that is provably testnet is found.
unproven_from-unproven :
    (rs : List PaymentRequirements) (found : List String)
    → All (λ n. is_provably_testnet n ≡ false) found
    → All (λ n. is_provably_testnet n ≡ false) (unproven_from found rs)
unfolding unproven_from
unproven_from-unproven [] found h = h
unproven_from-unproven (r ∷ rs) found h =
    unproven_from-unproven rs (noting r.network found)
      (noted (is_provably_testnet r.network) (contains r.network found) refl)
  where
    noted :
        (testnet known : Bool)
        → is_provably_testnet r.network ≡ testnet
        → All
            (λ n. is_provably_testnet n ≡ false)
            (if not testnet && not known then found ++ (r.network ∷ []) else found)
    noted true known e = h
    noted false true e = h
    noted false false e = All-append _ found (r.network ∷ []) h (e, tt)

pub filter-none {ℓ} :
    {A : Type ℓ} (p : A → Bool) (xs : List A) → filter p xs ≡ [] → All (λ x. p x ≡ false) xs
filter-none p [] h = tt
filter-none p (x ∷ xs) h = elim (Bool-cases (p x)) [
  | inl holds ↦ absurd (ground arith)
  | inr fails ↦ (fails, filter-none p xs (ground arith))
]

-- The guard passes only where nothing stands in the way.
verdict-ok :
    (rs : List PaymentRequirements) (armed unproven unadvertised already unnamed : List String)
    (a : ArmedRequirements)
    → verdict rs armed unproven unadvertised already unnamed ≡ ok a
    → (a.requirements ≡ rs)
      × (a.unproven ≡ unproven)
      × (unadvertised ≡ [])
      × (already ≡ [])
      × (unnamed ≡ [])
verdict-ok rs armed unproven [] [] [] a h = (ground arith, ground arith, refl, refl, refl)
verdict-ok rs armed unproven [] [] (n ∷ ns) a h = cc
verdict-ok rs armed unproven [] (x ∷ xs) unnamed a h = cc
verdict-ok rs armed unproven (x ∷ xs) already unnamed a h = cc

map_All :
    (unproven armed : List String) (rs : List PaymentRequirements)
    → All (λ n. not (contains n armed) ≡ false) unproven
    → All (λ r. (is_provably_testnet r.network ≡ true) ⊎ (contains r.network unproven ≡ true)) rs
    → All (λ r. MayAdvertise armed r.network) rs
map_All unproven armed [] named h = tt
map_All unproven armed (r ∷ rs) named h = (one h.0, map_All unproven armed rs named h.1)
  where
    look :
        (ns : List String)
        → All (λ n. not (contains n armed) ≡ false) ns
        → contains r.network ns ≡ true
        → contains r.network armed ≡ true
    look [] a c = cc
    look (n ∷ ns) a c = elim (Bool-cases (str_eq n r.network)) [
      | inl same ↦
          subst (λ x. contains x armed ≡ true) ((eq_iff n r.network).0 same) (ground (arith, a.0))
      | inr differs ↦ look ns a.1 (ground arith)
    ]

    one :
        (is_provably_testnet r.network ≡ true) ⊎ (contains r.network unproven ≡ true)
        → MayAdvertise armed r.network
    one (inl testnet) = inl testnet
    one (inr known) = inr (look unproven named known)

All-named :
    (unproven armed : List String)
    → All (λ n. is_provably_testnet n ≡ false) unproven
    → All (λ n. not (contains n armed) ≡ false) unproven
    → All (λ n. (is_provably_testnet n ≡ false) × (contains n armed ≡ true)) unproven
All-named [] armed h k = tt
All-named (n ∷ ns) armed h k = ((h.0, ground (arith, k.0)), All-named ns armed h.1 k.1)

none_stray :
    (rs : List PaymentRequirements) (unproven armed : List String)
    → All (λ id. stray unproven id && not (advertises rs id) ≡ false) armed
    → All (λ id. stray unproven id && advertises rs id ≡ false) armed
    → All (λ id. contains id unproven ≡ true) armed
none_stray rs unproven [] h k = tt
none_stray rs unproven (id ∷ ids) h k =
    (ground (arith, h.0, k.0), none_stray rs unproven ids h.1 k.1)

-- Where the guard passes, the options are unchanged and each is on a network that is provably testnet
-- or that the operator named; the networks reported as unproven are exactly the named ones: none of
-- them is provably testnet, each is named, and each name is among them.
pub check_arming-guards :
    (rs : List PaymentRequirements) (armed : List String) (a : ArmedRequirements)
    → check_arming rs armed ≡ ok a
    → (a.requirements ≡ rs)
      × All (λ r. MayAdvertise armed r.network) rs
      × All (λ n. (is_provably_testnet n ≡ false) × (contains n armed ≡ true)) a.unproven
      × All (λ id. contains id a.unproven ≡ true) armed
unfolding check_arming
check_arming-guards rs armed a h =
    let found = unproven_from [] rs in
    let (same, reported, unadvertised, already, unnamed) = verdict-ok rs armed found _ _ _ a h in
    let named = filter-none _ found unnamed in
    (
      same,
      map_All found armed rs named (unproven_from-covers rs []),
      subst (λ u. All (λ n. (is_provably_testnet n ≡ false) × (contains n armed ≡ true)) u)
          (sym reported) (All-named found armed (unproven_from-unproven rs [] tt) named),
      subst (λ u. All (λ id. contains id u ≡ true) armed) (sym reported)
          (none_stray rs found armed (filter-none _ armed unadvertised)
            (filter-none _ armed already)),
    )
