-- ===== src/Backends.antt =====
-- The registry of upstreams of obolus/src/backends.rs: its data, its single-backend constructors
-- and the routing of a request.
pub mod Rates
pub mod Registry
pub mod Build
pub mod Routing
pub mod Unambiguous
pub mod Loading
pub mod Boot
mod Tests
use obolus.Prelude.{
  ℕ, String, ℤ, Bool, true, false, ◌||◌, Option, none, some, List, [], ◌∷◌, codes, contains, filter,
  find, lt_rank, str_eq, if◌then◌else◌, is_empty,
}
use obolus.Prelude.Results.{Result, ok, err, ok_or}
use Prim.Native.Char.{code}
use Prim.Native.String
use obolus.Prelude.{◌==◌, ◌&&◌}

pub data Kind : Type 0 where
  ollama openai_compat anthropic_compat : Kind

pub record TokenRate : Type 0 where
  pub input : ℕ
  pub output : ℕ

-- `ModelRates`, a map by the model's exact name: its entries, the newest first. Nothing modelled
-- walks it in order.
abbrev pub ModelRates : Type 0
ModelRates = List (String × TokenRate)

-- `BTreeMap::get`.
unfoldable pub rate_of : String → ModelRates → Option TokenRate
rate_of model [] = none
rate_of model (entry ∷ rates) = if str_eq entry.0 model then some entry.1 else rate_of model rates

-- `trim_end_matches('/')`.
unfoldable pub trim_slashes : String → String
trim_slashes String.[] = ""
trim_slashes (String.◌∷◌ c s) =
    let rest = trim_slashes s in if is_empty rest && (code c == 47) then "" else String.◌∷◌ c rest

pub record OllamaUpstream : Type 0 where
  pub base_url : String
  pub head_timeout : ℕ
  pub bearer : Option String

-- `OllamaUpstream::new`; a deadline is in milliseconds.
unfoldable pub new_upstream : String → OllamaUpstream
unfolding trim_slashes
new_upstream base_url = record {
  base_url = trim_slashes base_url;
  head_timeout = 600000;
  bearer = none;
}

unfoldable pub with_head_timeout : ℕ → OllamaUpstream → OllamaUpstream
with_head_timeout t upstream = record upstream { head_timeout = t }

unfoldable pub with_bearer_token : String → OllamaUpstream → OllamaUpstream
with_bearer_token token upstream = record upstream { bearer = some token }

-- `Arc<dyn Upstream>`: a proxy, or another implementation behind a handle.
pub data Upstream : Type 0 where
  proxy : OllamaUpstream → Upstream
  handle : ℕ → Upstream

pub record Backend : Type 0 where
  pub id : String
  pub kind : Kind
  pub base_url : String
  pub models : List String
  pub precedence : Option ℤ
  pub has_key : Bool
  pub cost : Option ℕ
  pub rates : ModelRates
  pub upstream : Upstream

pub data RouteError : Type 0 where
  unknown_model : String → RouteError
  model_required : RouteError

abbrev pub is_catch_all : Backend → Bool
is_catch_all b = elim b.models [ [] ↦ true | _ ∷ _ ↦ false ]

abbrev pub serves : String → Backend → Bool
serves model b = is_catch_all b || contains model b.models

-- `max_by_key` of the precedence: of two that are equal the later one.
abbrev pub later_max : Backend → Backend → Backend
later_max best b = if lt_rank b.precedence best.precedence then best else b

unfoldable pub max_from : Backend → List Backend → Backend
max_from best [] = best
max_from best (b ∷ bs) = max_from (later_max best b) bs

unfoldable pub max_by_precedence : List Backend → Option Backend
unfolding max_from
max_by_precedence [] = none
max_by_precedence (b ∷ bs) = some (max_from b bs)

-- `Backends::route`.
unfoldable pub route : List Backend → Option String → Result RouteError Backend
unfolding max_by_precedence
route entries (some model) =
    ok_or (max_by_precedence (filter (serves model) entries)) (unknown_model model)
route entries none = ok_or (find is_catch_all entries) model_required

-- `Backends::single` and `Backends::single_ollama`.
unfoldable pub single : String → Kind → String → Upstream → List Backend
single id kind base_url upstream =
    record {
      id = id;
      kind = kind;
      base_url = base_url;
      models = [];
      precedence = none;
      has_key = false;
      cost = none;
      rates = [];
      upstream = upstream;
    }
    ∷ []

unfoldable pub single_ollama : String → ℕ → List Backend
unfolding single new_upstream with_head_timeout
single_ollama base_url t =
    single "default" ollama (trim_slashes base_url)
      (proxy (with_head_timeout t (new_upstream base_url)))

unfoldable pub with_sole_cost : ℕ → List Backend → List Backend
with_sole_cost cost [] = []
with_sole_cost cost (sole ∷ bs) = record sole { cost = some cost } ∷ bs

unfoldable pub with_sole_rates : ModelRates → List Backend → List Backend
with_sole_rates rates [] = []
with_sole_rates rates (sole ∷ bs) = record sole { rates = rates } ∷ bs
