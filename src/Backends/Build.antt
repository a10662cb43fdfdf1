-- ===== src/Backends/Build.antt =====
-- `build_backend`, `resolve_key` and `load_backends` of obolus/src/backends.rs. The JSON reader, the
-- file reader and the check of an HTTP header value are other people's code: parameters.
use obolus.Prelude.{
  ℕ, String, ℤ, Bool, true, false, ◌&&◌, not, Option, none, some, List, [], ◌∷◌, any, codes,
  is_empty, is_some, ◌==◌, lower, trim, map, if◌then◌else◌,
}
use obolus.Prelude.Results.{Result, ok, err, ◌>>=◌, ◌>>◌}
use Prim.Native.String.{◌++◌ as text_append}
use obolus.Json.{Value}
use obolus.Amount.{parse_u128}
use obolus.Backends.{
  Kind, ollama, openai_compat, anthropic_compat, ModelRates, Backend, proxy, OllamaUpstream,
  new_upstream, with_head_timeout, with_bearer_token, trim_slashes,
}
use obolus.Backends.Rates.{Loose, RateDefect, parse_rates}
use obolus.Backends.Registry.{
  BackendError, malformed, empty, kind_not_implemented, key_on_keyless_kind, empty_id, bad_base_url,
  key_file_unreadable, empty_key_file, key_not_text, key_not_header_safe, empty_model_alias,
  zero_cost, bad_cost, bad_rates, check_registry,
}

pub record BackendEntry : Type 0 where
  pub id : String
  pub kind : Kind
  pub base_url : String
  pub key_file : Option String
  pub models : List String
  pub precedence : Option ℤ
  pub cost : Option String
  pub rates : Option (Loose (Loose Value))

-- What reading a key file and decoding it as UTF-8 gives.
pub data KeyFile : Type 0 where
  unreadable : (detail : String) → KeyFile
  not_text : KeyFile
  text : String → KeyFile

abbrev pub is_prefix : List ℕ → List ℕ → Bool
is_prefix [] cs = true
is_prefix (p ∷ ps) [] = false
is_prefix (p ∷ ps) (c ∷ cs) = (p == c) && is_prefix ps cs

-- `to_ascii_lowercase().starts_with("http://")`.
unfoldable pub is_http : String → Bool
is_http s = is_prefix (codes "http://") (map lower (codes s))

unfoldable pub parse_cost : String → Option String → Result BackendError (Option ℕ)
parse_cost id none = ok none
parse_cost id (some raw) = elim (parse_u128 raw) [
  | none ↦ err (bad_cost id raw)
  | some amount ↦ if amount == 0 then err (zero_cost id) else ok (some amount)
]

abbrev pub with_source : String → Result RateDefect ModelRates → Result BackendError ModelRates
with_source id (ok rates) = ok rates
with_source id (err defect) = err (bad_rates id defect)

unfoldable pub entry_rates :
    String → List String → Option (Loose (Loose Value)) → Result BackendError ModelRates
entry_rates id models none = ok []
entry_rates id models (some raw) = with_source id (parse_rates raw models)

-- `from_str` gives the entries, or serde's message with its control characters escaped.
abbrev pub well_formed : Result String (List BackendEntry) → Result BackendError (List BackendEntry)
well_formed (ok es) = ok es
well_formed (err message) = err (malformed message)

abbrev pub some_entries : List BackendEntry → Result BackendError (List BackendEntry)
some_entries [] = err empty
some_entries (e ∷ es) = ok (e ∷ es)

-- An upstream that is built, and whether it carries a key.
abbrev pub Wired : Type 0
Wired = Bool × OllamaUpstream

module _ (read_key : String → KeyFile) (header_safe : String → Bool) where
  unfoldable pub resolve_key : String → String → Result BackendError String
  resolve_key id path = elim (read_key path) [
    | unreadable detail ↦ err (key_file_unreadable id path detail)
    | not_text ↦ err (key_not_text id path)
    | text s ↦
        if is_empty (trim s)
        then err (empty_key_file id path)
        else if header_safe (text_append "Bearer " (trim s))
        then ok (trim s)
        else err (key_not_header_safe id path)
  ]

  unfoldable pub wire :
      String → Kind → String → Option String → (head_timeout : ℕ) → Result BackendError Wired
  wire id anthropic_compat base_url key_file t = err (kind_not_implemented id anthropic_compat)
  wire id ollama base_url key_file t =
      if is_some key_file
      then err (key_on_keyless_kind id ollama)
      else ok (false, with_head_timeout t (new_upstream base_url))
  wire id openai_compat base_url none t = ok (false, with_head_timeout t (new_upstream base_url))
  wire id openai_compat base_url (some path) t = do
    token ← resolve_key id path
    ok (true, with_bearer_token token (with_head_timeout t (new_upstream base_url)))

  unfoldable pub build_backend : BackendEntry → (head_timeout : ℕ) → Result BackendError Backend
  build_backend entry t =
      if is_empty (trim entry.id)
      then err empty_id
      else if not (is_http entry.base_url)
      then err (bad_base_url entry.id entry.base_url)
      else if any (λ m. is_empty (trim m)) entry.models
      then err (empty_model_alias entry.id)
      else (do
        cost ← parse_cost entry.id entry.cost
        rates ← entry_rates entry.id entry.models entry.rates
        wired ← wire entry.id entry.kind entry.base_url entry.key_file t
        ok (record {
          id = entry.id;
          kind = entry.kind;
          base_url = trim_slashes entry.base_url;
          models = entry.models;
          precedence = entry.precedence;
          has_key = wired.0;
          cost = cost;
          rates = rates;
          upstream = proxy wired.1;
        }))

  unfoldable pub build_all :
      List BackendEntry → (head_timeout : ℕ) → Result BackendError (List Backend)
  build_all [] t = ok []
  build_all (entry ∷ es) t = do b ← build_backend entry t; bs ← build_all es t; ok (b ∷ bs)

  unfoldable pub load_backends :
      (from_str : String → Result String (List BackendEntry))
      → String
      → (head_timeout : ℕ) → Result BackendError (List Backend)
  load_backends from_str raw t = do
    entries ← well_formed (from_str raw)
    some_ones ← some_entries entries
    bs ← build_all some_ones t
    check_registry bs
    ok bs
