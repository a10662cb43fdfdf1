-- ===== src/Request/Pass.antt =====
-- The pass over a request body and its two fallbacks: `TopLevel`, `ModelValue`, `Judge`,
-- `model_only` and `first_case_variant` of obolus/src/request.rs.
use obolus.Prelude.{
  ℕ, String, Bool, true, false, Option, none, some, List, [], ◌∷◌, or_else, is_some, unwrap_or,
  str_eq, if◌then◌else◌,
}
use obolus.Request.Reader.{
  at_least_zero, Visit, visit_str, visit_u64, visit_i64, visit_unit, Entry, Shape, map, seq,
  neither, Document,
}
use obolus.Request.Keys.{
  CaseVariant, Key, model, max_tokens, max_completion_tokens, n, n_variant, best_of, other, variant,
  key_of,
}

pub data MaxTokens : Type 0 where
  absent invalid : MaxTokens
  limit : ℕ → MaxTokens

pub record Scan : Type 0 where
  pub model : Option String
  pub max_tokens : MaxTokens
  pub max_completion_tokens : Bool
  pub n : Option MaxTokens
  pub n_variant : Bool
  pub best_of : Bool
  pub in_judged_value : Bool
  pub max_tokens_variant : Bool
  pub case_variant : Option CaseVariant
  -- The two locals of `visit_map`.
  pub model_seen : Bool
  pub poisoned : Bool

abbrev pub start : Scan
start = record {
  model = none;
  max_tokens = absent;
  max_completion_tokens = false;
  n = none;
  n_variant = false;
  best_of = false;
  in_judged_value = false;
  max_tokens_variant = false;
  case_variant = none;
  model_seen = false;
  poisoned = false;
}

-- `Judge`: only a non-negative integer is a limit.
unfoldable pub judge : Visit → MaxTokens
judge (visit_u64 k) = limit k
judge (visit_i64 (at_least_zero k)) = limit k
judge _ = invalid

-- The arm of a first `model` key: a text names a model, `null` names none, all else poisons.
unfoldable pub read_model : Visit → Scan → Scan
read_model (visit_str s) scan = record scan { model_seen = true; model = some s }
read_model visit_unit scan = record scan { model_seen = true }
read_model _ scan = record scan { model_seen = true; poisoned = true }

-- A step gives the scan, and whether the value was read.
abbrev pub Stepped : Type 0
Stepped = Scan × Bool

abbrev pub strictly : Option Visit → Scan → (Visit → Scan) → Stepped
strictly none scan next = (scan, false)
strictly (some v) scan next = (next v, true)

-- One round of the loop of `visit_map`.
unfoldable pub step_key : Key → Entry → Scan → Stepped
unfolding judge read_model
step_key model e scan =
    if scan.model_seen
    then (record scan { poisoned = true }, e.skips)
    else strictly e.strict (record scan { model_seen = true }) (λ v. read_model v scan)
step_key max_tokens e scan =
    strictly e.strict (record scan { max_tokens = invalid; in_judged_value = true })
      (λ v. record scan { max_tokens = judge v; in_judged_value = false })
step_key n e scan =
    strictly e.strict (record scan { n = some invalid; in_judged_value = true })
      (λ v. record scan { n = some (judge v); in_judged_value = false })
step_key n_variant e scan = (record scan { n_variant = true }, e.skips)
step_key best_of e scan = (record scan { best_of = true }, e.skips)
step_key (variant w) e scan = (
  record scan {
    max_tokens_variant = if str_eq w.of "max_tokens" then true else scan.max_tokens_variant;
    case_variant = or_else scan.case_variant (some w);
  },
  e.skips,
)
step_key max_completion_tokens e scan = (record scan { max_completion_tokens = true }, e.skips)
step_key other e scan = (scan, e.skips)

abbrev pub finish_map : Scan → Scan
finish_map scan = record scan { model = if scan.poisoned then none else scan.model }

-- The loop, and what the caller finds after it: on an error the scan stays as it was.
unfoldable pub visit_entries : List Entry → Bool → Scan → Stepped
visit_entries [] closed scan = if closed then (finish_map scan, true) else (scan, false)
visit_entries (e ∷ es) closed scan =
    let (next, read) = step_key (key_of e.key) e scan in
    let rest = visit_entries es closed next in if read then rest else (next, false)

unfoldable pub top_level : Shape → Stepped
unfolding visit_entries
top_level (map es closed) = visit_entries es closed start
top_level (seq none) = (start, false)
top_level (seq (some first)) = (record start { model = unwrap_or first none }, true)
top_level neither = (start, false)

-- `Option<String>` read strictly: `none` is the error.
abbrev pub optional_text : Visit → Option (Option String)
optional_text (visit_str s) = some (some s)
optional_text visit_unit = some none
optional_text _ = none

abbrev pub read_text : Option Visit → Option (Option String)
read_text none = none
read_text (some v) = optional_text v

-- The derived reader of `ModelField`: one `model`, a text or `null`, every other value skipped.
unfoldable pub model_field : List Entry → Bool → Option (Option String) → Option (Option String)
model_field [] closed found = if closed then some (unwrap_or found none) else none
model_field (e ∷ es) closed found =
    let after_model = model_field es closed (read_text e.strict) in
    let after_skip = model_field es closed found in
    if str_eq e.key "model"
    then (if is_some found
        then none
        else if is_some (read_text e.strict)
        then after_model
        else none)
    else if e.skips
    then after_skip
    else none

unfoldable pub model_shape : Shape → Option (Option String)
unfolding model_field
model_shape (map es closed) = model_field es closed none
model_shape (seq none) = none
model_shape (seq (some first)) = some (unwrap_or first none)
model_shape neither = none

unfoldable pub model_only : Document → Option String
unfolding model_shape
model_only d = if d.ends then unwrap_or (model_shape d.shape) none else none

unfoldable pub first_variant : List Entry → Option CaseVariant
first_variant [] = none
first_variant (e ∷ es) = elim (key_of e.key) [
  | variant w ↦ some w
  | _ ↦ if e.skips then first_variant es else none
]

unfoldable pub first_case_variant : Document → Option CaseVariant
unfolding first_variant
first_case_variant d = elim d.shape [ map es closed ↦ first_variant es | _ ↦ none ]
