-- ===== src/Access.antt =====
-- What obolus/src/access.rs reads out of the `Authorization` header. Signatures are other people's
-- code: to the gateway a token path is its verifier's verdict on a token, which Access/KeySet models
-- for a set of keys.
pub mod KeySet
pub mod KeyFiles
mod Tests
use Prim.Native.Char.{Char, code}
use obolus.Prelude.{
  String, Option, none, some, ◌==◌, codes, is_empty, same_letters, trim, and_then, if◌then◌else◌,
}

-- A header as `to_str` reads it: `opaque` is a value that is not visible ASCII.
pub data Header : Type 0 where
  unset opaque : Header
  visible : String → Header

abbrev pub before_first : Char → Option (String × String) → Option (String × String)
before_first c none = none
before_first c (some (before, after)) = some (String.◌∷◌ c before, after)

-- `split_once(' ')`.
unfoldable pub split_at_space : String → Option (String × String)
split_at_space String.[] = none
split_at_space (String.◌∷◌ c s) =
    let rest = split_at_space s in if code c == 32 then some ("", s) else before_first c rest

abbrev pub bearer_of : String × String → Option String
bearer_of (scheme, token) =
    if same_letters (codes scheme) (codes "bearer")
    then (if is_empty (trim token) then none else some (trim token))
    else none

unfoldable pub bearer_token : Header → Option String
bearer_token unset = none
bearer_token opaque = none
bearer_token (visible value) = and_then (split_at_space value) bearer_of
