-- ===== src/Backends/Tests.antt =====
-- Concrete registries.
use obolus.Prelude.{
  ℕ, ◌<◌, String, pos, ◌≡◌, ◌≢◌, ◌↔◌, ◌⊎◌, refl, Bool, true, false, Option, none, some, List, [],
  ◌∷◌, All, lt_rank, str_eq,
}
use obolus.Prelude.Results.{Result, ok}
use obolus.Json.{Value, string, object, end, field}
use obolus.Backends.{
  openai_compat, ollama, Backend, TokenRate, ModelRates, OllamaUpstream, proxy, unknown_model,
  serves, route,
}
use obolus.Fixtures.{small_backend, big_backend}
use obolus.Backends.Rates.{Loose, read_loose, parse_rates}
use obolus.Backends.Registry.{check_registry}
use obolus.Backends.Build.{BackendEntry, KeyFile, text, load_backends}
use obolus.Backends.Routing.{In, route-best}
use obolus.Backends.Unambiguous.{route-unambiguous}
use obolus.Backends.Loading.{IsListed, IsOneEach, parse_rates-IsListed}
use obolus.Backends.Boot.{AreSound, load_backends-AreSound}

abbrev pair : List Backend
pair = small_backend ∷ big_backend ∷ []

-- The higher precedence wins.
big_wins : route pair (some "tiny") ≡ ok big_backend
unfolding route lt_rank
big_wins = refl

admitted : check_registry pair ≡ ok tt
unfolding check_registry lt_rank
admitted = refl

route-best_example :
    In big_backend pair
    × (serves "tiny" big_backend ≡ true)
    × All (λ o. serves "tiny" o ≡ true → lt_rank big_backend.precedence o.precedence ≡ false) pair
route-best_example = route-best pair "tiny" big_backend big_wins

route-unambiguous_example :
    All
      (λ o.
        serves "tiny" o ≡ true
        → (o ≡ big_backend) ⊎ (lt_rank o.precedence big_backend.precedence ≡ true))
      pair
route-unambiguous_example = route-unambiguous pair "tiny" big_backend admitted big_wins

abbrev raw_rates : Value
raw_rates = object (
    field "tiny"
      (object (field "input" (string "3000000") (field "output" (string "15000000") end))) end)

abbrev loose_rates : Loose (Loose Value)
loose_rates = read_loose (read_loose (λ v. v)) raw_rates

rates_read : parse_rates loose_rates ("tiny" ∷ []) ≡ ok small_backend.rates
unfolding parse_rates read_loose obolus.Backends.Rates.take_rate obolus.Prelude.trim
    obolus.Backends.rate_of obolus.Backends.Rates.parse_rate obolus.Backends.Rates.take_field
    obolus.Backends.Rates.parse_rate_value obolus.Amount.parse_u128
rates_read = refl

parse_rates-IsListed_example :
    All (IsListed ("tiny" ∷ [])) small_backend.rates × IsOneEach small_backend.rates
parse_rates-IsListed_example =
    parse_rates-IsListed loose_rates ("tiny" ∷ []) small_backend.rates rates_read

abbrev keyed_entry : BackendEntry
keyed_entry = record {
  id = "keyed";
  kind = openai_compat;
  base_url = "HTTP://hosted/";
  key_file = some "/run/key";
  models = "tiny" ∷ [];
  precedence = none;
  cost = some "400";
  rates = none;
}

abbrev keyed_backend : Backend
keyed_backend = record {
  id = "keyed";
  kind = openai_compat;
  base_url = "HTTP://hosted";
  models = "tiny" ∷ [];
  precedence = none;
  has_key = true;
  cost = some 400;
  rates = [];
  upstream =
      proxy
        (record { base_url = "HTTP://hosted"; head_timeout = 600000; bearer = some "sk-not-real" });
}

abbrev read_key : String → KeyFile
read_key path = text "sk-not-real "

abbrev header_safe : String → Bool
header_safe value = str_eq value "Bearer sk-not-real"

abbrev from_str : String → Result String (List BackendEntry)
from_str raw = ok (keyed_entry ∷ [])

loads : load_backends read_key header_safe from_str "[…]" 600000 ≡ ok (keyed_backend ∷ [])
unfolding load_backends obolus.Backends.Build.build_all obolus.Backends.Build.build_backend
    obolus.Prelude.trim obolus.Backends.Build.is_http obolus.Backends.Build.parse_cost
    obolus.Amount.parse_u128 obolus.Backends.Build.entry_rates obolus.Backends.Build.wire
    obolus.Backends.Build.resolve_key check_registry obolus.Backends.trim_slashes
    obolus.Backends.with_bearer_token obolus.Backends.with_head_timeout obolus.Backends.new_upstream
loads = refl

load_backends-AreSound_example :
    ((es : List BackendEntry) × (from_str "[…]" ≡ ok es)
      × (es ≢ [])
      × AreSound read_key header_safe es 600000 (keyed_backend ∷ []))
    × ((model : String) (b : Backend)
        → route (keyed_backend ∷ []) (some model) ≡ ok b
        → All
            (λ o. serves model o ≡ true → (o ≡ b) ⊎ (lt_rank o.precedence b.precedence ≡ true))
            (keyed_backend ∷ []))
load_backends-AreSound_example =
    load_backends-AreSound read_key header_safe from_str "[…]" 600000 (keyed_backend ∷ []) loads
