-- ===== src/Request/Flags.antt =====
-- The flags of the pass over a request body: keys set them, and nothing clears them.
use obolus.Prelude.{
  or_else, ◌≡◌, inl, inr, refl, sym, ◌∙◌, Bool, true, false, Option, none, some, List, [], ◌∷◌, All,
  arith, Bool-cases, is_some,
}
use obolus.Request.Keys.{Key, model, max_completion_tokens, n_variant, best_of, variant, key_of}
use obolus.Request.Folding.{is_variant, is_completion_limit, is_best_of, is_n_variant}
use obolus.Request.Reader.{Entry}
use obolus.Request.Pass.{Scan, step_key, visit_entries, finish_map}

-- A flag of the scan that some keys set and none clears.
module _ (flag : Scan → Bool) (marks : Key → Bool)
    (keeps : (k : Key) (e : Entry) (scan : Scan)
      → flag scan ≡ true
      → flag (step_key k e scan).0 ≡ true)
    (sets : (k : Key) (e : Entry) (scan : Scan)
      → marks k ≡ true
      → flag (step_key k e scan).0 ≡ true)
    (finishes : (scan : Scan) → flag (finish_map scan) ≡ flag scan) where
  pub flag-visit_entries :
      (es : List Entry) (closed : Bool) (scan : Scan)
      → (visit_entries es closed scan).1 ≡ true
      → flag (visit_entries es closed scan).0 ≡ false
      → (flag scan ≡ false) × All (λ e. marks (key_of e.key) ≡ false) es
  unfolding visit_entries
  flag-visit_entries [] true scan r h = (sym (finishes scan) ∙ h, tt)
  flag-visit_entries [] false scan r h = cc
  flag-visit_entries (e ∷ es) closed scan r h =
      elim (Bool-cases (step_key (key_of e.key) e scan).1) [
        | inl read ↦
            let (clear, rest) =
              flag-visit_entries es closed (step_key (key_of e.key) e scan).0 (ground (arith))
                (ground (arith)) in
            (
              ground (arith, keeps (key_of e.key) e scan),
              (ground (arith, sets (key_of e.key) e scan), rest),
            )
        | inr unread ↦ absurd (ground arith)
      ]

is_some-or_else {ℓ} : {A : Type ℓ} (o : Option A) (a : A) → is_some (or_else o (some a)) ≡ true
is_some-or_else none a = refl
is_some-or_else (some b) a = refl

pub keeps_variant :
    (k : Key) (e : Entry) (scan : Scan)
    → is_some scan.case_variant ≡ true
    → is_some (step_key k e scan).0.case_variant ≡ true
unfolding step_key
keeps_variant (variant w) e scan h = is_some-or_else scan.case_variant w
keeps_variant _ e scan h = ground arith

pub sets_variant :
    (k : Key) (e : Entry) (scan : Scan)
    → is_variant k ≡ true
    → is_some (step_key k e scan).0.case_variant ≡ true
unfolding step_key
sets_variant (variant w) e scan h = is_some-or_else scan.case_variant w
sets_variant _ e scan h = cc

pub keeps_completion_limit :
    (k : Key) (e : Entry) (scan : Scan)
    → scan.max_completion_tokens ≡ true
    → (step_key k e scan).0.max_completion_tokens ≡ true
unfolding step_key
keeps_completion_limit model e scan h = ground arith
keeps_completion_limit _ e scan h = ground arith

pub sets_completion_limit :
    (k : Key) (e : Entry) (scan : Scan)
    → is_completion_limit k ≡ true
    → (step_key k e scan).0.max_completion_tokens ≡ true
unfolding step_key
sets_completion_limit max_completion_tokens e scan h = refl
sets_completion_limit _ e scan h = cc

pub keeps_best_of :
    (k : Key) (e : Entry) (scan : Scan) → scan.best_of ≡ true → (step_key k e scan).0.best_of ≡ true
unfolding step_key
keeps_best_of model e scan h = ground arith
keeps_best_of _ e scan h = ground arith

pub sets_best_of :
    (k : Key) (e : Entry) (scan : Scan) → is_best_of k ≡ true → (step_key k e scan).0.best_of ≡ true
unfolding step_key
sets_best_of best_of e scan h = refl
sets_best_of _ e scan h = cc

pub keeps_n_variant :
    (k : Key) (e : Entry) (scan : Scan)
    → scan.n_variant ≡ true
    → (step_key k e scan).0.n_variant ≡ true
unfolding step_key
keeps_n_variant model e scan h = ground arith
keeps_n_variant _ e scan h = ground arith

pub sets_n_variant :
    (k : Key) (e : Entry) (scan : Scan)
    → is_n_variant k ≡ true
    → (step_key k e scan).0.n_variant ≡ true
unfolding step_key
sets_n_variant n_variant e scan h = refl
sets_n_variant _ e scan h = cc
