-- ===== src/Request.antt =====
-- `RequestShape` of obolus/src/request.rs: what the gateway reads out of a request body.
pub mod Keys
pub mod Reader
pub mod Pass
pub mod Model
pub mod Folding
pub mod Flags
pub mod Limits
mod Tests
use obolus.Prelude.{
  ℕ, String, Bool, true, false, Option, none, some, ◌==◌, ◌||◌, ◌&&◌, or_else, if◌then◌else◌,
}
use Keys.{CaseVariant}
use Reader.{Document}
use Pass.{MaxTokens, absent, invalid, limit, Scan, top_level, model_only, first_case_variant}

pub record RequestShape : Type 0 where
  pub model : Option String
  pub max_tokens : MaxTokens
  pub max_completion_tokens : Bool
  pub case_variant : Option CaseVariant
  pub n_other_than_one : Bool
  pub best_of : Bool
  pub read_in_full : Bool
  pub body_len : ℕ

-- `n != MaxTokens::Limit(1)` of an `n` that was given.
abbrev pub other_than_one : Option MaxTokens → Bool
other_than_one none = false
other_than_one (some (limit k)) = if k == 1 then false else true
other_than_one (some _) = true

-- The shape that one pass leaves.
unfoldable pub shape_of : Document → Scan → (read : Bool) → RequestShape
unfolding model_only first_case_variant
shape_of d scan read = record {
  model = if read then scan.model else if scan.in_judged_value then model_only d else none;
  max_tokens = if scan.max_tokens_variant then invalid else scan.max_tokens;
  max_completion_tokens = scan.max_completion_tokens;
  case_variant =
      if read
      then scan.case_variant
      else if scan.in_judged_value
      then or_else scan.case_variant (first_case_variant d)
      else scan.case_variant;
  n_other_than_one = scan.n_variant || other_than_one scan.n;
  best_of = scan.best_of;
  read_in_full = read;
  body_len = d.body_len;
}

-- `RequestShape::parse`.
unfoldable pub parse : Document → RequestShape
unfolding top_level shape_of
parse d = let (scan, read) = top_level d.shape in shape_of d scan (read && d.ends)
