-- ===== src/Request/Keys.antt =====
-- The top-level keys that the pass of obolus/src/request.rs acts on: `KeyVisitor::visit_str` and
-- `folds_to`.
use obolus.Prelude.{
  ℕ, String, Bool, true, ◌&&◌, ◌||◌, none, some, List, [], ◌∷◌, ◌==◌, length, find, codes, str_eq,
  eq_ignore_ascii_case, if◌then◌else◌,
}

-- A key that folds to `of` without being it.
pub record CaseVariant : Type 0 where
  pub key : String
  pub of : String

pub data Key : Type 0 where
  model max_tokens max_completion_tokens n n_variant best_of other : Key
  variant : CaseVariant → Key

abbrev pub kelvin_sign : ℕ
kelvin_sign = 0x212A

abbrev pub long_s : ℕ
long_s = 0x017F

-- One character against one of the target's.
unfoldable pub char_folds : ℕ → ℕ → Bool
char_folds c t =
    eq_ignore_ascii_case c t || (t == 107 && c == kelvin_sign) || (t == 115 && c == long_s)

unfoldable pub zip_folds : List ℕ → List ℕ → Bool
unfolding char_folds
zip_folds (c ∷ cs) (t ∷ ts) = char_folds c t && zip_folds cs ts
zip_folds _ _ = true

unfoldable pub folds_to : String → String → Bool
unfolding zip_folds
folds_to key target =
    length (codes key) == length (codes target) && zip_folds (codes key) (codes target)

-- The arms below the exact names.
unfoldable pub folded_key : String → Key
unfolding folds_to
folded_key key = elim (find (folds_to key) ("model" ∷ "max_tokens" ∷ [])) [
  | some of ↦ variant (record { key = key; of = of })
  | none ↦
      if folds_to key "max_completion_tokens"
      then max_completion_tokens
      else if folds_to key "n"
      then n_variant
      else if folds_to key "best_of"
      then best_of
      else other
]

unfoldable pub key_of : String → Key
unfolding folded_key
key_of key =
    if str_eq key "model"
    then model
    else if str_eq key "max_tokens"
    then max_tokens
    else if str_eq key "max_completion_tokens"
    then max_completion_tokens
    else if str_eq key "n"
    then n
    else folded_key key
