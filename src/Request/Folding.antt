-- ===== src/Request/Folding.antt =====
-- What a key of a request body can fold to, from how it is classified.
use obolus.Prelude.{
  String, ◌≡◌, ◌≢◌, inl, inr, refl, ap, Bool, true, false, arith, eq_iff, Bool-cases, str_eq,
  length, codes,
}
use obolus.Request.Keys.{
  Key, max_completion_tokens, n_variant, best_of, variant, key_of, folded_key, folds_to,
}

abbrev pub is_variant : Key → Bool
is_variant (variant w) = true
is_variant _ = false

abbrev pub is_completion_limit : Key → Bool
is_completion_limit max_completion_tokens = true
is_completion_limit _ = false

abbrev pub is_best_of : Key → Bool
is_best_of best_of = true
is_best_of _ = false

abbrev pub is_n_variant : Key → Bool
is_n_variant n_variant = true
is_n_variant _ = false

-- What a key can fold to, from how it is classified.
length-folds_to : (k t : String) → folds_to k t ≡ true → length (codes k) ≡ length (codes t)
unfolding folds_to
length-folds_to k t h = ground arith

folds_apart :
    (k s t : String)
    → length (codes s) ≢ length (codes t)
    → folds_to k s ≡ true
    → folds_to k t ≡ false
folds_apart k s t apart h = ground (arith, length-folds_to k s, length-folds_to k t)

variant_of_model : (k : String) → folds_to k "model" ≡ true → is_variant (folded_key k) ≡ true
unfolding folded_key
variant_of_model k h = ground arith

variant_of_max_tokens :
    (k : String) → folds_to k "max_tokens" ≡ true → is_variant (folded_key k) ≡ true
unfolding folded_key
variant_of_max_tokens k h = ground arith

exact_apart :
    (k name t : String) → folds_to name t ≡ false → folds_to k t ≡ true → str_eq k name ≡ false
exact_apart k name t apart h = elim (Bool-cases (str_eq k name)) [
  | inl same ↦ cc (ap (λ (x : String). folds_to x t) ((eq_iff k name).0 same))
  | inr differs ↦ differs
]

-- A key that is no variant and folds to `model` or `max_tokens` is that key.
pub folds_to-model :
    (k : String) → is_variant (key_of k) ≡ false → folds_to k "model" ≡ true → k ≡ "model"
unfolding key_of
folds_to-model k plain h = (eq_iff k "model").0 (
    ground (
      arith,
      exact_apart k "max_tokens" "model" (unfold folds_to in refl) h,
      exact_apart k "max_completion_tokens" "model" (unfold folds_to in refl) h,
      exact_apart k "n" "model" (unfold folds_to in refl) h,
      variant_of_model k h,
    ))

pub folds_to-max_tokens :
    (k : String) → is_variant (key_of k) ≡ false → folds_to k "max_tokens" ≡ true → k ≡ "max_tokens"
unfolding key_of
folds_to-max_tokens k plain h = (eq_iff k "max_tokens").0 (
    ground (
      arith,
      exact_apart k "model" "max_tokens" (unfold folds_to in refl) h,
      exact_apart k "max_completion_tokens" "max_tokens" (unfold folds_to in refl) h,
      exact_apart k "n" "max_tokens" (unfold folds_to in refl) h,
      variant_of_max_tokens k h,
    ))

-- What the arms below the exact names make of a key that folds to one of the other fields.
module _ (k : String) where
  folded_key-completion_limit :
      folds_to k "max_completion_tokens" ≡ true → is_completion_limit (folded_key k) ≡ true
  unfolding folded_key
  folded_key-completion_limit h = ground (
    arith,
    folds_apart k "max_completion_tokens" "model" (omega arith) h,
    folds_apart k "max_completion_tokens" "max_tokens" (omega arith) h,
  )

  folded_key-best_of : folds_to k "best_of" ≡ true → is_best_of (folded_key k) ≡ true
  unfolding folded_key
  folded_key-best_of h = ground (
    arith,
    folds_apart k "best_of" "model" (omega arith) h,
    folds_apart k "best_of" "max_tokens" (omega arith) h,
    folds_apart k "best_of" "max_completion_tokens" (omega arith) h,
    folds_apart k "best_of" "n" (omega arith) h,
  )

  folded_key-n_variant : folds_to k "n" ≡ true → is_n_variant (folded_key k) ≡ true
  unfolding folded_key
  folded_key-n_variant h = ground (
    arith,
    folds_apart k "n" "model" (omega arith) h,
    folds_apart k "n" "max_tokens" (omega arith) h,
    folds_apart k "n" "max_completion_tokens" (omega arith) h,
  )

  pub completion_limit-seen :
      is_completion_limit (key_of k) ≡ false → folds_to k "max_completion_tokens" ≡ false
  unfolding key_of
  completion_limit-seen clear = elim (Bool-cases (folds_to k "max_completion_tokens")) [
    | inl h ↦ ground (
      arith,
      exact_apart k "model" "max_completion_tokens" (unfold folds_to in refl) h,
      exact_apart k "max_tokens" "max_completion_tokens" (unfold folds_to in refl) h,
      exact_apart k "n" "max_completion_tokens" (unfold folds_to in refl) h,
      folded_key-completion_limit h,
    )
    | inr h ↦ h
  ]

  pub best_of-seen : is_best_of (key_of k) ≡ false → folds_to k "best_of" ≡ false
  unfolding key_of
  best_of-seen clear = elim (Bool-cases (folds_to k "best_of")) [
    | inl h ↦ ground (
      arith,
      exact_apart k "model" "best_of" (unfold folds_to in refl) h,
      exact_apart k "max_tokens" "best_of" (unfold folds_to in refl) h,
      exact_apart k "max_completion_tokens" "best_of" (unfold folds_to in refl) h,
      exact_apart k "n" "best_of" (unfold folds_to in refl) h,
      folded_key-best_of h,
    )
    | inr h ↦ h
  ]

  pub n-seen : is_n_variant (key_of k) ≡ false → folds_to k "n" ≡ true → k ≡ "n"
  unfolding key_of
  n-seen clear h = (eq_iff k "n").0 (
      ground (
        arith,
        exact_apart k "model" "n" (unfold folds_to in refl) h,
        exact_apart k "max_tokens" "n" (unfold folds_to in refl) h,
        exact_apart k "max_completion_tokens" "n" (unfold folds_to in refl) h,
        folded_key-n_variant h,
      ))
