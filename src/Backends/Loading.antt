-- ===== src/Backends/Loading.antt =====
-- What a table of rates that is read holds, for `parse_rates` of obolus/src/backends.rs.
use obolus.Prelude.{
  ℕ, ◌+◌, ◌<◌, String, ◌≡◌, ◌⊎◌, inl, inr, refl, sym, subst, Bool, true, false, ◌&&◌, not, List, [],
  ◌∷◌, All, contains, is_empty, is_some, trim, ◌==◌, arith, if◌then◌else◌,
}
use obolus.Prelude.Results.{Result, ok, err, ok_or, ◌>>=◌, >>=-eq-ok}
use obolus.Json.{Value}
use obolus.Backends.{TokenRate, ModelRates, rate_of}
use obolus.Backends.Rates.{
  Loose, entries, kind_only, RateDefect, both_zero, empty_model, duplicate_model, unserved_model,
  Slots, full_rate, take_fields, parse_rate, no_models, take_rate, take_rates, parse_rates,
}

-- A rate that can price something.
abbrev pub IsCharged : TokenRate → Type 0
IsCharged rate = 0 < rate.input + rate.output

IsCharged-unless_zero :
    (model : String) (i j : ℕ) (is_zero : Bool) (rate : TokenRate)
    → is_zero ≡ ((i == 0) && (j == 0))
    → (if is_zero then err (both_zero model) else ok (record { input = i; output = j })) ≡ ok rate
    → IsCharged rate
IsCharged-unless_zero model i j true rate e h = cc
IsCharged-unless_zero model i j false rate e h = subst IsCharged (same h) (positive e)
  where
    same :
        ◌≡◌ {A = Result RateDefect TokenRate} (ok (record { input = i; output = j })) (ok rate)
        → record { input = i; output = j } ≡ rate
    same g = ground arith

    positive : false ≡ ((i == 0) && (j == 0)) → 0 < i + j
    positive g = ground arith

full_rate-IsCharged :
    (model : String) (s : Slots) (rate : TokenRate) → full_rate model s ≡ ok rate → IsCharged rate
full_rate-IsCharged model s rate h =
    let (i, found_i, h1) = >>=-eq-ok (ok_or s.input_slot _) _ h in
    let (j, found_j, h2) = >>=-eq-ok (ok_or s.output_slot _) _ h1 in
    IsCharged-unless_zero model i j ((i == 0) && (j == 0)) rate refl h2

parse_rate-IsCharged :
    (model : String) (raw : Loose Value) (rate : TokenRate)
    → parse_rate model raw ≡ ok rate
    → IsCharged rate
unfolding parse_rate
parse_rate-IsCharged model (kind_only found) rate h = cc
parse_rate-IsCharged model (entries fields) rate h =
    let (s, taken, h1) = >>=-eq-ok (take_fields model _ fields) _ h in
    full_rate-IsCharged model s rate h1

-- An entry of a table of rates: it names a model, one that the backend lists if it lists any, and
-- its rate can price something.
abbrev pub IsListed : List String → String × TokenRate → Type 0
IsListed served entry =
    (is_empty (trim entry.0) ≡ false)
    × IsCharged entry.1
    × ((no_models served ≡ true) ⊎ (contains entry.0 served ≡ true))

-- No model is named twice.
abbrev pub IsOneEach : ModelRates → Type 0
IsOneEach [] = Unit
IsOneEach (entry ∷ rates) = (is_some (rate_of entry.0 rates) ≡ false) × IsOneEach rates

take_rate-IsListed :
    (served : List String) (rates next : ModelRates) (model : String) (raw : Loose Value)
    → take_rate served rates model raw ≡ ok next
    → (rate : TokenRate) × (next ≡ (model, rate) ∷ rates)
      × (is_some (rate_of model rates) ≡ false)
      × IsListed served (model, rate)
unfolding take_rate
take_rate-IsListed served rates next model raw h =
    cases (is_empty (trim model)) refl (is_some (rate_of model rates)) refl
      (not (no_models served) && not (contains model served)) refl h
  where
    cases :
        (blank : Bool)
        → is_empty (trim model) ≡ blank
        → (again : Bool) → is_some (rate_of model rates) ≡ again
        → (unlisted : Bool) → (not (no_models served) && not (contains model served)) ≡ unlisted
        → (if blank
            then err empty_model
            else if again
            then err (duplicate_model model)
            else if unlisted
            then err (unserved_model model)
            else (parse_rate model raw >>= λ rate. ok ((model, rate) ∷ rates)))
          ≡ ok next
        → (rate : TokenRate) × (next ≡ (model, rate) ∷ rates)
          × (is_some (rate_of model rates) ≡ false)
          × IsListed served (model, rate)
    cases true b again a unlisted u g = cc
    cases false b true a unlisted u g = cc
    cases false b false a true u g = cc
    cases false b false a false u g =
        let (rate, parsed, built) = >>=-eq-ok (parse_rate model raw) _ g in
        (
          rate,
          same rate built,
          a,
          (b, parse_rate-IsCharged model raw rate parsed, listed (no_models served) refl),
        )
      where
        same :
            (rate : TokenRate)
            → ◌≡◌ {A = Result RateDefect ModelRates} (ok ((model, rate) ∷ rates)) (ok next)
            → next ≡ (model, rate) ∷ rates
        same rate e = ground arith

        listed :
            (none_listed : Bool)
            → no_models served ≡ none_listed
            → (no_models served ≡ true) ⊎ (contains model served ≡ true)
        listed true e = inl e
        listed false e = inr (ground arith)

take_rates-IsListed :
    (rs : List (String × Loose Value)) (served : List String) (rates out : ModelRates)
    → take_rates served rates rs ≡ ok out
    → All (IsListed served) rates × IsOneEach rates
    → All (IsListed served) out × IsOneEach out
unfolding take_rates
take_rates-IsListed [] served rates out h good =
    subst (λ r. All (IsListed served) r × IsOneEach r) (same h) good
  where
    same : ◌≡◌ {A = Result RateDefect ModelRates} (ok rates) (ok out) → rates ≡ out
    same e = ground arith
take_rates-IsListed (r ∷ rs) served rates out h good =
    let (next, taken, h1) = >>=-eq-ok (take_rate served rates r.0 r.1) _ h in
    let (rate, grown, once, listed) = take_rate-IsListed served rates next r.0 r.1 taken in
    take_rates-IsListed rs served next out h1 (
      subst (λ n. All (IsListed served) n × IsOneEach n) (sym grown)
        ((listed, good.0), (once, good.1)))

-- A table of rates that is read names each model once, and only models that the backend lists if it
-- lists any; none of its rates is zero on both sides.
pub parse_rates-IsListed :
    (raw : Loose (Loose Value)) (served : List String) (rates : ModelRates)
    → parse_rates raw served ≡ ok rates
    → All (IsListed served) rates × IsOneEach rates
unfolding parse_rates
parse_rates-IsListed (kind_only found) served rates h = cc
parse_rates-IsListed (entries []) served rates h = cc
parse_rates-IsListed (entries (r ∷ rs)) served rates h =
    take_rates-IsListed (r ∷ rs) served [] rates h (tt, tt)
