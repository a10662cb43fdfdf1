-- ===== src/Request/Reader.antt =====
-- What `serde_json` delivers to the visitors of obolus/src/request.rs. The reader is other people's
-- code: a body enters as the calls that it makes, and the visitors are modelled over those.
use obolus.Prelude.{ℕ, String, Bool, Option, List}

-- The argument of `visit_i64`; `below_zero n` is -(n + 1).
pub data Int64 : Type 0 where
  at_least_zero : ℕ → Int64
  below_zero : ℕ → Int64

-- The method that `deserialize_any` calls for a value.
pub data Visit : Type 0 where
  visit_str : String → Visit
  visit_u64 : ℕ → Visit
  visit_i64 : Int64 → Visit
  visit_unit visit_f64 visit_bool visit_seq visit_map : Visit

-- One entry of the top-level object. `strict` is `none` where reading the value fails, as at a text
-- that cannot be decoded; `skips` says whether `IgnoredAny` gets past the value.
pub record Entry : Type 0 where
  pub key : String
  pub strict : Option Visit
  pub skips : Bool

-- `map` delivers entries until the object is closed, or until a key cannot be read. `seq` delivers
-- the first element as an `Option<String>`: `none` for an error, `some none` for no element.
pub data Shape : Type 0 where
  map : List Entry → (closed : Bool) → Shape
  seq : Option (Option (Option String)) → Shape
  neither : Shape

-- `ends` says whether the value is closed and followed by nothing.
pub record Document : Type 0 where
  pub shape : Shape
  pub ends : Bool
  pub body_len : ℕ
