-- ===== src/Request/Limits.antt =====
-- What a body that was read in full can hold besides what its shape reports.
use obolus.Prelude.{
  or_else, ℕ, String, ◌≡◌, ◌⊎◌, inl, inr, refl, sym, ◌∙◌, ap, Bool, true, false, ◌&&◌, ◌||◌, Option,
  none, some, List, [], ◌∷◌, All, arith, eq_iff, Bool-cases, str_eq, unwrap_or, is_some,
  and-eq-true_iff, if◌then◌else◌,
}
use obolus.Request.Keys.{Key, model, max_tokens, n, key_of, folded_key, folds_to}
use obolus.Request.Folding.{
  is_variant, is_completion_limit, is_best_of, is_n_variant, folds_to-model, folds_to-max_tokens,
  completion_limit-seen, best_of-seen, n-seen,
}
use obolus.Request.Flags.{
  flag-visit_entries, keeps_variant, sets_variant, keeps_completion_limit, sets_completion_limit,
  keeps_best_of, sets_best_of, keeps_n_variant, sets_n_variant,
}
use obolus.Request.Reader.{Visit, Entry, map, Document}
use obolus.Request.Pass.{
  MaxTokens, absent, invalid, limit, Scan, Stepped, start, judge, step_key, visit_entries,
  top_level,
}
use obolus.Request.{shape_of, parse, other_than_one}

-- What the last entry with exactly this key says of a limit.
abbrev judged_entry : Option Visit → Option MaxTokens
judged_entry none = none
judged_entry (some v) = some (judge v)

unfoldable pub last_judged : String → List Entry → Option MaxTokens
unfolding judge
last_judged key [] = none
last_judged key (e ∷ es) =
    or_else (last_judged key es) (if str_eq e.key key then judged_entry e.strict else none)

abbrev is_max_tokens : Key → Bool
is_max_tokens max_tokens = true
is_max_tokens _ = false

abbrev is_n : Key → Bool
is_n n = true
is_n _ = false

folded_key-not_limit :
    (k : String) → (is_max_tokens (folded_key k) ≡ false) × (is_n (folded_key k) ≡ false)
unfolding folded_key
folded_key-not_limit k = ground arith

-- A key is one name at most.
one_name : (k a b : String) → str_eq a b ≡ false → str_eq k a ≡ true → str_eq k b ≡ false
one_name k a b apart h = rw ((eq_iff k a).0 h) apart

key_of-max_tokens : (k : String) → is_max_tokens (key_of k) ≡ str_eq k "max_tokens"
unfolding key_of
key_of-max_tokens k = ground (arith, folded_key-not_limit k, one_name k "model" "max_tokens" refl)

key_of-n : (k : String) → is_n (key_of k) ≡ str_eq k "n"
unfolding key_of
key_of-n k = ground (
  arith,
  folded_key-not_limit k,
  one_name k "model" "n" refl,
  one_name k "max_tokens" "n" refl,
  one_name k "max_completion_tokens" "n" refl,
)

step_limit :
    (k : Key) (e : Entry) (scan : Scan)
    → (step_key k e scan).1 ≡ true
    → (step_key k e scan).0.max_tokens
      ≡ unwrap_or (if is_max_tokens k then judged_entry e.strict else none) scan.max_tokens
unfolding step_key
step_limit model e scan h = ground arith
step_limit max_tokens e scan h = ground arith
step_limit _ e scan h = ground arith

step_n :
    (k : Key) (e : Entry) (scan : Scan)
    → (step_key k e scan).1 ≡ true
    → (step_key k e scan).0.n ≡ or_else (if is_n k then judged_entry e.strict else none) scan.n
unfolding step_key
step_n model e scan h = ground arith
step_n n e scan h = ground arith
step_n _ e scan h = ground arith

or_else-none {ℓ} : {A : Type ℓ} (o : Option A) → or_else o none ≡ o
or_else-none none = refl
or_else-none (some a) = refl

visit_limit :
    (es : List Entry) (closed : Bool) (scan : Scan)
    → (visit_entries es closed scan).1 ≡ true
    → (visit_entries es closed scan).0.max_tokens
      ≡ unwrap_or (last_judged "max_tokens" es) scan.max_tokens
unfolding visit_entries last_judged
visit_limit [] true scan h = refl
visit_limit [] false scan h = cc
visit_limit (e ∷ es) closed scan h = elim (Bool-cases (step_key (key_of e.key) e scan).1) [
  | inl read ↦ ground (
    arith,
    visit_limit es closed (step_key (key_of e.key) e scan).0,
    step_limit (key_of e.key) e scan,
    key_of-max_tokens e.key,
  )
  | inr unread ↦ absurd (ground arith)
]

visit_n :
    (es : List Entry) (closed : Bool) (scan : Scan)
    → (visit_entries es closed scan).1 ≡ true
    → (visit_entries es closed scan).0.n ≡ or_else (last_judged "n" es) scan.n
unfolding visit_entries last_judged
visit_n [] true scan h = refl
visit_n [] false scan h = cc
visit_n (e ∷ es) closed scan h = elim (Bool-cases (step_key (key_of e.key) e scan).1) [
  | inl read ↦ ground (
    arith,
    visit_n es closed (step_key (key_of e.key) e scan).0,
    step_n (key_of e.key) e scan,
    key_of-n e.key,
  )
  | inr unread ↦ absurd (ground arith)
]

abbrev pass : List Entry → Bool → Stepped
pass es closed = visit_entries es closed start

All-map {ℓ κ} :
    {A : Type ℓ} {P Q : A → Type κ} → ((a : A) → P a → Q a) → (xs : List A) → All P xs → All Q xs
All-map f [] h = tt
All-map f (x ∷ xs) h = (f x h.0, All-map f xs h.1)

All-zip {ℓ κ} :
    {A : Type ℓ} (P Q : A → Type κ) (xs : List A) → All P xs → All Q xs → All (λ a. P a × Q a) xs
All-zip P Q [] p q = tt
All-zip P Q (x ∷ xs) p q = ((p.0, q.0), All-zip P Q xs p.1 q.1)

no_others :
    (variant : Bool) (count : Option MaxTokens)
    → variant || other_than_one count ≡ false
    → (variant ≡ false) × (other_than_one count ≡ false)
no_others true count h = cc
no_others false count h = (refl, h)

single :
    (count : Option MaxTokens)
    → other_than_one count ≡ false
    → (count ≡ none) ⊎ (count ≡ some (limit 1))
single none h = inl refl
single (some absent) h = cc
single (some invalid) h = cc
single (some (limit k)) h = ground arith

reported :
    (last : Option MaxTokens) (k : ℕ) (variant : Bool) (found : MaxTokens)
    → found ≡ unwrap_or last absent
    → (if variant then invalid else found) ≡ limit k
    → last ≡ some (limit k)
reported last k true found read h = cc
reported none k false found read h = cc
reported (some l) k false found read h = ap some (sym read ∙ h)

-- What the pass leaves in the shape, where the body was read in full.
module _ (d : Document) (es : List Entry) (closed : Bool) (shape : d.shape ≡ map es closed)
    (read : (parse d).read_in_full ≡ true) where
  parse-pass : parse d ≡ shape_of d (pass es closed).0 ((pass es closed).1 && d.ends)
  unfolding parse
  parse-pass = ap (λ s. shape_of d (top_level s).0 ((top_level s).1 && d.ends)) shape

  shape_read : (pass es closed).1 && d.ends ≡ true
  unfolding shape_of
  shape_read = ap (λ r. r.read_in_full) (sym parse-pass) ∙ read

  pass_read : (pass es closed).1 ≡ true
  pass_read = ((and-eq-true_iff _ _).0 shape_read).0

  parsed : (parse d) ≡ shape_of d (pass es closed).0 true
  parsed = parse-pass ∙ ap (shape_of d (pass es closed).0) shape_read

  -- Where no variant is reported, each key that a reader could fold to `model` or `max_tokens` is
  -- exactly that key.
  pub parse-no_variants :
      (parse d).case_variant ≡ none
      → All
          (λ e.
            (folds_to e.key "model" ≡ true → e.key ≡ "model")
            × (folds_to e.key "max_tokens" ≡ true → e.key ≡ "max_tokens"))
          es
  unfolding shape_of
  parse-no_variants clear =
      All-map (λ e plain. (folds_to-model e.key plain, folds_to-max_tokens e.key plain)) es
        (flag-visit_entries (λ s. is_some s.case_variant) is_variant keeps_variant sets_variant
          (λ s. refl) es closed start pass_read
          (ap is_some (ap (λ r. r.case_variant) (sym parsed) ∙ clear))).1

  -- Where neither `max_completion_tokens` nor `best_of` is reported and `n` is absent or 1, no key
  -- folds to the first two, a key that folds to `n` is exactly `n`, and the last value of `n`, if
  -- there is one, is 1.
  pub parse-no_lifts :
      (parse d).max_completion_tokens ≡ false
      → (parse d).best_of ≡ false
      → (parse d).n_other_than_one ≡ false
      → All
          (λ e.
            (folds_to e.key "max_completion_tokens" ≡ false)
            × (folds_to e.key "best_of" ≡ false)
            × (folds_to e.key "n" ≡ true → e.key ≡ "n"))
          es
        × ((last_judged "n" es ≡ none) ⊎ (last_judged "n" es ≡ some (limit 1)))
  unfolding shape_of
  parse-no_lifts completion best others = (
    All-map (λ e h. (completion_limit-seen e.key h.0, best_of-seen e.key h.1.0, n-seen e.key h.1.1))
        es
        (All-zip _ _ es
          (flag-visit_entries (λ s. s.max_completion_tokens) is_completion_limit
            keeps_completion_limit sets_completion_limit (λ s. refl) es closed start pass_read
            (ap (λ r. r.max_completion_tokens) (sym parsed) ∙ completion)).1
          (All-zip _ _ es
            (flag-visit_entries (λ s. s.best_of) is_best_of keeps_best_of sets_best_of (λ s. refl)
              es closed start pass_read (ap (λ r. r.best_of) (sym parsed) ∙ best)).1
            (flag-visit_entries (λ s. s.n_variant) is_n_variant keeps_n_variant sets_n_variant
              (λ s. refl) es closed start pass_read
              (no_others (pass es closed).0.n_variant (pass es closed).0.n others_read).0).1)),
    single (last_judged "n" es) (
        ap other_than_one
          (sym (visit_n es closed start pass_read ∙ or_else-none (last_judged "n" es)))
        ∙ (no_others (pass es closed).0.n_variant (pass es closed).0.n others_read).1),
  )
    where
      others_read : (pass es closed).0.n_variant || other_than_one (pass es closed).0.n ≡ false
      others_read = ap (λ r. r.n_other_than_one) (sym parsed) ∙ others

  -- A limit that is reported is the last value of `max_tokens` itself.
  pub parse-last_limit :
      (k : ℕ) → (parse d).max_tokens ≡ limit k → last_judged "max_tokens" es ≡ some (limit k)
  unfolding shape_of
  parse-last_limit k h =
      reported (last_judged "max_tokens" es) k (pass es closed).0.max_tokens_variant
        (pass es closed).0.max_tokens (visit_limit es closed start pass_read)
        (ap (λ r. r.max_tokens) (sym parsed) ∙ h)
