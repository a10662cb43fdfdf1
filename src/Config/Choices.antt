-- ===== src/Config/Choices.antt =====
-- What a choice that is accepted says of the settings, for `select_pricing`,
-- `require_backend_costs`, `require_backend_rates`, `select_promo` and `select_max_output_tokens` of
-- obolus/src/config.rs.
use obolus.Prelude.{
  ℕ, ◌≤◌, ◌<◌, ◌≡◌, ◌↔◌, ◌⊎◌, inl, inr, refl, String, Bool, true, false, not, Option, none, some,
  List, [], ◌∷◌, All, arith, Bool-cases, is_some, str_eq, trim, subst, eq_iff,
}
use obolus.Prelude.Results.{ok, >>=-eq-ok, >>-eq-ok, ok-injective}
use obolus.Amount.{parse_u128}
use obolus.Backends.{Backend}
use obolus.Config.Pricing.{
  PricingChoice, static_choice, token_choice, cost_plus_choice, PricingConfigError, parse_up_to,
  u32_max, pricing_var, upstream_cost_var, margin_bps_var, orphaned, unless_orphaned, refuse_set,
  or_bad_cost, read_cost, read_margin, choose_token, choose_cost_plus, choose, select_pricing,
  named_backends, unless_named, require_backend_costs, require_backend_rates, has_rates,
  inert_rates, unrated_backends, inert_backend_cost, missing_backend_cost,
}

module _ (select : Backend → Bool) (why : List String → PricingConfigError) where
  unless_named-none :
      (bs : List Backend) {u : Unit {0}}
      → unless_named why (named_backends bs select) ≡ ok u
      → All (λ b. select b ≡ false) bs
  unless_named-none [] h = tt
  unless_named-none (b ∷ bs) h = elim (Bool-cases (select b)) [
    | inl e ↦ absurd (ground arith)
    | inr e ↦ (e, unless_named-none bs (ground arith))
  ]

  none-unless_named :
      (bs : List Backend)
      → All (λ b. select b ≡ false) bs
      → unless_named why (named_backends bs select) ≡ ok tt
  none-unless_named [] h = refl
  none-unless_named (b ∷ bs) h = rw h.0 (none-unless_named bs h.1)

abbrev pub is_cost_plus : PricingChoice → Bool
is_cost_plus (cost_plus_choice margin_bps upstream_cost) = true
is_cost_plus _ = false

abbrev pub is_token : PricingChoice → Bool
is_token token_choice = true
is_token _ = false

module _ {P Q : Backend → Type 0} where
  All-map : ((b : Backend) → P b → Q b) → (bs : List Backend) → All P bs → All Q bs
  All-map f [] h = tt
  All-map f (b ∷ bs) h = (f b h.0, All-map f bs h.1)

not-false : (b : Bool) → not b ≡ false → b ≡ true
not-false true h = refl
not-false false h = cc

-- The boot check of costs passes exactly where each backend declares a cost under cost-plus, and
-- none does under another rate.
pub require_backend_costs-iff_agree :
    (bs : List Backend) (choice : PricingChoice)
    → (require_backend_costs bs choice ≡ ok tt) ↔ All (λ b. is_some b.cost ≡ is_cost_plus choice) bs
unfolding require_backend_costs
require_backend_costs-iff_agree bs (cost_plus_choice m c) = (
  λ h. All-map (λ b. not-false (is_some b.cost)) bs (unless_named-none _ missing_backend_cost bs h),
  λ g. none-unless_named _ missing_backend_cost bs (All-map (λ b e. rw e refl) bs g),
)
require_backend_costs-iff_agree bs static_choice =
    (unless_named-none _ inert_backend_cost bs, none-unless_named _ inert_backend_cost bs)
require_backend_costs-iff_agree bs token_choice =
    (unless_named-none _ inert_backend_cost bs, none-unless_named _ inert_backend_cost bs)

-- The boot check of rates passes exactly where each backend declares rates under token pricing, and
-- none does under another rate.
pub require_backend_rates-iff_agree :
    (bs : List Backend) (choice : PricingChoice)
    → (require_backend_rates bs choice ≡ ok tt) ↔ All (λ b. has_rates b.rates ≡ is_token choice) bs
unfolding require_backend_rates
require_backend_rates-iff_agree bs token_choice = (
  λ h. All-map (λ b. not-false (has_rates b.rates)) bs (unless_named-none _ unrated_backends bs h),
  λ g. none-unless_named _ unrated_backends bs (All-map (λ b e. rw e refl) bs g),
)
require_backend_rates-iff_agree bs static_choice =
    (unless_named-none _ inert_rates bs, none-unless_named _ inert_rates bs)
require_backend_rates-iff_agree bs (cost_plus_choice m c) =
    (unless_named-none _ inert_rates bs, none-unless_named _ inert_rates bs)

pub parse_up_to-eq-some :
    (bound : ℕ) (raw : String) {n : ℕ}
    → parse_up_to bound raw ≡ some n
    → (parse_u128 raw ≡ some n) × (n ≤ bound)
parse_up_to-eq-some bound raw h = ground arith

module _ (get : String → Option String) where
  -- Neither parameter of cost-plus is set.
  abbrev pub HasNoCostPlus : Type 0
  HasNoCostPlus = (get upstream_cost_var ≡ none) × (get margin_bps_var ≡ none)

  -- Neither setting that would fix the amounts is.
  abbrev pub HasNoAmounts : Type 0
  HasNoAmounts = (get "OBOLUS_ACCEPTS" ≡ none) × (get "OBOLUS_PRICE" ≡ none)

  abbrev pub IsNamed : String → Type 0
  IsNamed rate = (raw : String) × (get pricing_var ≡ some raw) × (trim raw ≡ rate)

  abbrev pub IsMargin : ℕ → Type 0
  IsMargin bps =
      (raw : String) × (get margin_bps_var ≡ some raw)
      × (parse_u128 raw ≡ some bps)
      × (bps ≤ u32_max)

  abbrev pub IsCost : Option ℕ → Type 0
  IsCost none = get upstream_cost_var ≡ none
  IsCost (some cost) =
      (raw : String) × (get upstream_cost_var ≡ some raw)
      × (parse_u128 raw ≡ some cost)
      × (0 < cost)

  -- What the settings say, where they choose a rate.
  abbrev pub IsChosen : PricingChoice → Type 0
  IsChosen static_choice = ((get pricing_var ≡ none) ⊎ IsNamed "static") × HasNoCostPlus
  IsChosen token_choice = IsNamed "token" × HasNoCostPlus × HasNoAmounts
  IsChosen (cost_plus_choice margin_bps upstream_cost) =
      IsNamed "cost-plus" × HasNoAmounts × IsMargin margin_bps × IsCost upstream_cost

  unless_orphaned-eq-ok :
      (choice : PricingChoice) {c : PricingChoice}
      → unless_orphaned (orphaned get) choice ≡ ok c
      → (choice ≡ c) × HasNoCostPlus
  unless_orphaned-eq-ok choice h = ground arith

  refuse_set-eq-ok :
      (value : Option String) (why : PricingConfigError) {u : Unit {0}}
      → refuse_set value why ≡ ok u
      → value ≡ none
  refuse_set-eq-ok none why h = refl
  refuse_set-eq-ok (some v) why h = cc

  read_margin-eq-ok :
      (value : Option String) {bps : ℕ}
      → read_margin value ≡ ok bps
      → (raw : String) × (value ≡ some raw) × (parse_u128 raw ≡ some bps) × (bps ≤ u32_max)
  read_margin-eq-ok none h = cc
  read_margin-eq-ok (some raw) h =
      let (read, small) = parse_up_to-eq-some u32_max raw (ground arith) in (raw, refl, read, small)

  or_bad_cost-eq-ok :
      (raw : String) (read : Option ℕ) {cost : Option ℕ}
      → get upstream_cost_var ≡ some raw
      → parse_u128 raw ≡ read
      → or_bad_cost raw read ≡ ok cost
      → IsCost cost
  or_bad_cost-eq-ok raw none {cost} e r h = cc
  or_bad_cost-eq-ok raw (some n) {cost} e r h =
      let same : Path (Option ℕ) (some n) cost = ground arith in
      subst IsCost same (raw, e, r, ground arith)

  read_cost-eq-ok :
      (value : Option String) {cost : Option ℕ}
      → get upstream_cost_var ≡ value
      → read_cost value ≡ ok cost
      → IsCost cost
  read_cost-eq-ok none e h = subst IsCost (ok-injective h) e
  read_cost-eq-ok (some raw) e h = or_bad_cost-eq-ok raw (parse_u128 raw) e refl h

  choose_token-IsChosen :
      {choice : PricingChoice} → IsNamed "token" → choose_token get ≡ ok choice → IsChosen choice
  choose_token-IsChosen named h =
      let (accepts, h1) = >>-eq-ok (refuse_set (get "OBOLUS_ACCEPTS") _) _ h in
      let (price, h2) = >>-eq-ok (refuse_set (get "OBOLUS_PRICE") _) _ h1 in
      let (same, bare) = unless_orphaned-eq-ok token_choice h2 in
      subst IsChosen same (named, bare, (refuse_set-eq-ok _ _ accepts, refuse_set-eq-ok _ _ price))

  choose_cost_plus-IsChosen :
      {choice : PricingChoice}
      → IsNamed "cost-plus"
      → choose_cost_plus get ≡ ok choice
      → IsChosen choice
  choose_cost_plus-IsChosen named h =
      let (accepts, h1) = >>-eq-ok (refuse_set (get "OBOLUS_ACCEPTS") _) _ h in
      let (price, h2) = >>-eq-ok (refuse_set (get "OBOLUS_PRICE") _) _ h1 in
      let (cost, costed, h3) = >>=-eq-ok (read_cost (get upstream_cost_var)) _ h2 in
      let (margin, added, h4) = >>=-eq-ok (read_margin (get margin_bps_var)) _ h3 in
      subst IsChosen (ok-injective h4) (
        named,
        (refuse_set-eq-ok _ _ accepts, refuse_set-eq-ok _ _ price),
        read_margin-eq-ok _ added,
        read_cost-eq-ok _ refl costed,
      )

  choose-IsChosen :
      (value : Option String) {choice : PricingChoice}
      → get pricing_var ≡ value
      → choose get value ≡ ok choice
      → IsChosen choice
  choose-IsChosen none {choice} e h =
      let (same, bare) = unless_orphaned-eq-ok static_choice h in subst IsChosen same (inl e, bare)
  choose-IsChosen (some raw) {choice} e h = elim (Bool-cases (str_eq (trim raw) "static")) [
    | inl p ↦
        let (same, bare) = unless_orphaned-eq-ok static_choice {c = choice} (ground arith) in
        subst IsChosen same (inr (raw, e, ground (arith, eq_iff (trim raw) "static")), bare)
    | inr p ↦ elim (Bool-cases (str_eq (trim raw) "token")) [
      | inl q ↦
          choose_token-IsChosen (raw, e, ground (arith, eq_iff (trim raw) "token")) (ground arith)
      | inr q ↦ elim (Bool-cases (str_eq (trim raw) "cost-plus")) [
        | inl t ↦
            choose_cost_plus-IsChosen (raw, e, ground (arith, eq_iff (trim raw) "cost-plus"))
              (ground arith)
        | inr t ↦ absurd (ground arith)
      ]
    ]
  ]

  -- Where a rate is selected, it is the one that is named, static if none is. The cost and the margin
  -- of cost-plus are what their variables read as, a margin within a `u32` and a cost, if one is set,
  -- that is not zero; under another rate neither variable is set. Under cost-plus and token pricing
  -- neither OBOLUS_ACCEPTS nor OBOLUS_PRICE is set.
  pub select_pricing-IsChosen :
      {choice : PricingChoice} → select_pricing get ≡ ok choice → IsChosen choice
  unfolding select_pricing
  select_pricing-IsChosen h = choose-IsChosen (get pricing_var) refl h
