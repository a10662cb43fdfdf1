-- ===== src/Backends/Boot.antt =====
-- What a configuration that loads holds, for `load_backends` of obolus/src/backends.rs.
use Prim.Native.String.{◌++◌ as text_append}
use obolus.Prelude.{
  ℕ, zero, suc, ◌<◌, String, ◌≡◌, ◌≢◌, ◌⊎◌, refl, ap, sym, subst, ◌∙◌, Bool, true, false, not,
  Option, none, some, List, [], ◌∷◌, All, any, is_empty, is_some, trim, ◌==◌, arith, lt_rank,
  if◌then◌else◌,
}
use obolus.Prelude.Results.{Result, ok, err, ◌>>=◌, >>=-eq-ok, >>-eq-ok, ok-injective}
use obolus.Amount.{parse_u128}
use obolus.Json.{Value}
use obolus.Backends.{
  Kind, OllamaUpstream, new_upstream, with_head_timeout, with_bearer_token, ollama, openai_compat,
  anthropic_compat, ModelRates, Backend, trim_slashes, proxy, route, serves,
}
use obolus.Backends.Rates.{Loose, RateDefect, parse_rates}
use obolus.Backends.Registry.{
  BackendError, empty_id, bad_base_url, empty_model_alias, bad_cost, zero_cost, key_file_unreadable,
  key_not_text, empty_key_file, key_not_header_safe, check_registry,
}
use obolus.Backends.Build.{
  BackendEntry, KeyFile, unreadable, not_text, text, is_http, parse_cost, with_source, entry_rates,
  resolve_key, wire, build_backend, build_all, some_entries, well_formed, load_backends, Wired,
}
use obolus.Backends.Unambiguous.{route-unambiguous}
use obolus.Backends.Loading.{IsListed, parse_rates-IsListed}

-- The cost of a backend is what its entry's reads as, and not zero.
abbrev pub IsCosted : (declared : Option String) → (cost : Option ℕ) → Type 0
IsCosted none cost = cost ≡ none
IsCosted (some raw) cost = (n : ℕ) × (cost ≡ some n) × (parse_u128 raw ≡ some n) × (0 < n)

-- The rates of a backend are those of its entry's table, if it has one.
abbrev pub AreRates :
    (declared : Option (Loose (Loose Value)))
    → (models : List String) → (rates : ModelRates) → Type 0
AreRates none models rates = rates ≡ []
AreRates (some raw) models rates = parse_rates raw models ≡ ok rates

module _ (read_key : String → KeyFile) where
  -- The key that is sent is the trimmed text of the entry's key file, and not blank.
  abbrev pub IsBearer : (key_file : Option String) → (bearer : Option String) → Type 0
  IsBearer none bearer = bearer ≡ none
  IsBearer (some path) bearer =
      (content : String) × (read_key path ≡ text content)
      × (bearer ≡ some (trim content))
      × (is_empty (trim content) ≡ false)

  -- What a backend asks its origin with: the path of the entry's origin, the deadline for a head, and
  -- the key.
  abbrev pub IsWired : BackendEntry → (head_timeout : ℕ) → OllamaUpstream → Type 0
  IsWired entry t upstream =
      (upstream.base_url ≡ trim_slashes entry.base_url)
      × (upstream.head_timeout ≡ t)
      × IsBearer entry.key_file upstream.bearer

  -- A backend that is what its entry says, and the entry is one that a gateway can use.
  pub record IsSound (entry : BackendEntry) (head_timeout : ℕ) (b : Backend) : Type 0 where
    pub origin : is_http entry.base_url ≡ true
    pub base_url : b.base_url ≡ trim_slashes entry.base_url
    pub id : b.id ≡ entry.id
    pub named : is_empty (trim b.id) ≡ false
    pub models : b.models ≡ entry.models
    pub models_named : any (λ m. is_empty (trim m)) b.models ≡ false
    pub kind : b.kind ≡ entry.kind
    pub spoken : b.kind ≢ anthropic_compat
    pub precedence : b.precedence ≡ entry.precedence
    pub costed : IsCosted entry.cost b.cost
    pub rates : AreRates entry.rates b.models b.rates
    pub rated : All (IsListed b.models) b.rates
    pub keyed : b.has_key ≡ is_some entry.key_file
    pub key_sent : b.has_key ≡ true → b.kind ≡ openai_compat
    pub upstream : OllamaUpstream
    pub proxied : b.upstream ≡ proxy upstream
    pub wired : IsWired entry head_timeout upstream

parse_cost-IsCosted :
    (id : String) (raw : Option String) (cost : Option ℕ)
    → parse_cost id raw ≡ ok cost
    → IsCosted raw cost
unfolding parse_cost
parse_cost-IsCosted id none cost h = same h
  where
    same : ◌≡◌ {A = Result BackendError (Option ℕ)} (ok none) (ok cost) → cost ≡ none
    same e = ground arith
parse_cost-IsCosted id (some raw) cost h = read (parse_u128 raw) refl h
  where
    read :
        (amount : Option ℕ)
        → parse_u128 raw ≡ amount
        → (elim amount [
          | none ↦ err (bad_cost id raw)
          | some a ↦ if a == 0 then err (zero_cost id) else ok (some a)
        ])
          ≡ ok cost
        → IsCosted (some raw) cost
    read none r e = cc
    read (some zero) r e = cc
    read (some (suc a)) r e =
        let same : cost ≡ some (suc a) = ground arith in (suc a, same, r, omega arith)

entry_rates-AreRates :
    (id : String) (models : List String) (raw : Option (Loose (Loose Value))) (rates : ModelRates)
    → entry_rates id models raw ≡ ok rates
    → AreRates raw models rates
unfolding entry_rates
entry_rates-AreRates id models none rates h = same h
  where
    same : ◌≡◌ {A = Result BackendError ModelRates} (ok []) (ok rates) → rates ≡ []
    same e = ground arith
entry_rates-AreRates id models (some raw) rates h = sourced (parse_rates raw models) refl h
  where
    sourced :
        (read : Result RateDefect ModelRates)
        → parse_rates raw models ≡ read
        → with_source id read ≡ ok rates
        → parse_rates raw models ≡ ok rates
    sourced (err e) r g = cc
    sourced (ok rs) r g = r ∙ ap ok (ok-injective g)

AreRates-IsListed :
    (raw : Option (Loose (Loose Value))) (models : List String) (rates : ModelRates)
    → AreRates raw models rates
    → All (IsListed models) rates
AreRates-IsListed none models rates h = subst (All (IsListed models)) (sym h) tt
AreRates-IsListed (some raw) models rates h = (parse_rates-IsListed raw models rates h).0

module _ (read_key : String → KeyFile) (header_safe : String → Bool) where
  resolve_key-IsBearer :
      (id path : String) {token : String}
      → resolve_key read_key header_safe id path ≡ ok token
      → IsBearer read_key (some path) (some token)
  unfolding resolve_key
  resolve_key-IsBearer id path {token} h = found (read_key path) refl h
    where
      found :
          (file : KeyFile)
          → read_key path ≡ file
          → (elim file [
            | unreadable detail ↦ err (key_file_unreadable id path detail)
            | not_text ↦ err (key_not_text id path)
            | text s ↦
                if is_empty (trim s)
                then err (empty_key_file id path)
                else if header_safe (text_append "Bearer " (trim s))
                then ok (trim s)
                else err (key_not_header_safe id path)
          ])
            ≡ ok token
          → IsBearer read_key (some path) (some token)
      found (unreadable detail) e g = cc
      found not_text e g = cc
      found (text content) e g = (content, e, ground arith, ground arith)

  -- What an entry is wired to.
  abbrev WiredTo : BackendEntry → (head_timeout : ℕ) → Wired → Type 0
  WiredTo entry t wired =
      (entry.kind ≢ anthropic_compat)
      × (wired.0 ≡ is_some entry.key_file)
      × (wired.0 ≡ true → entry.kind ≡ openai_compat)
      × IsWired read_key entry t wired.1

  -- The parts of an entry that its wiring reads.
  abbrev part : BackendEntry → Kind → (key_file : Option String) → BackendEntry
  part entry kind key_file = record entry { kind = kind; key_file = key_file }

  wire-WiredTo :
      (entry : BackendEntry) (kind : Kind) (key_file : Option String) (t : ℕ) {wired : Wired}
      → wire read_key header_safe entry.id kind entry.base_url key_file t ≡ ok wired
      → WiredTo (part entry kind key_file) t wired
  unfolding wire new_upstream with_head_timeout with_bearer_token
  wire-WiredTo entry ollama none t h =
      subst (WiredTo (part entry ollama none) t) (ok-injective h)
        ((λ e. cc), refl, (λ k. absurd (ground arith)), (refl, refl, refl))
  wire-WiredTo entry ollama (some path) t h = cc
  wire-WiredTo entry openai_compat none t h =
      subst (WiredTo (part entry openai_compat none) t) (ok-injective h)
        ((λ e. cc), refl, (λ k. refl), (refl, refl, refl))
  wire-WiredTo entry openai_compat (some path) t h =
      let (token, resolved, last) =
        >>=-eq-ok (resolve_key read_key header_safe entry.id path) _ h in
      subst (WiredTo (part entry openai_compat (some path)) t) (ok-injective last)
        ((λ e. cc), refl, (λ k. refl), (refl, refl, resolve_key-IsBearer entry.id path resolved))
  wire-WiredTo entry anthropic_compat key_file t h = cc

  build_backend-IsSound :
      (entry : BackendEntry) (t : ℕ) (b : Backend)
      → build_backend read_key header_safe entry t ≡ ok b
      → IsSound read_key entry t b
  unfolding build_backend
  build_backend-IsSound entry t b h =
      checked (is_empty (trim entry.id)) refl (is_http entry.base_url) refl
        (any (λ m. is_empty (trim m)) entry.models) refl h
    where
      built : Option ℕ → ModelRates → Wired → Backend
      built cost rates wired = record {
        id = entry.id;
        kind = entry.kind;
        base_url = trim_slashes entry.base_url;
        models = entry.models;
        precedence = entry.precedence;
        has_key = wired.0;
        cost = cost;
        rates = rates;
        upstream = proxy wired.1;
      }

      checked :
          (blank : Bool)
          → is_empty (trim entry.id) ≡ blank
          → (http : Bool) → is_http entry.base_url ≡ http
          → (unnamed : Bool) → any (λ m. is_empty (trim m)) entry.models ≡ unnamed
          → (if blank
              then err empty_id
              else if not http
              then err (bad_base_url entry.id entry.base_url)
              else if unnamed
              then err (empty_model_alias entry.id)
              else (do
                cost ← parse_cost entry.id entry.cost
                rates ← entry_rates entry.id entry.models entry.rates
                wired ←
                    wire read_key header_safe entry.id entry.kind entry.base_url entry.key_file t
                ok (built cost rates wired)))
            ≡ ok b
          → IsSound read_key entry t b
      checked true n http u unnamed m g = cc
      checked false n false u unnamed m g = cc
      checked false n true u true m g = cc
      checked false n true u false m g =
          let (cost, costed, g1) = >>=-eq-ok (parse_cost entry.id entry.cost) _ g in
          let (rates, rated, g2) = >>=-eq-ok (entry_rates entry.id entry.models entry.rates) _ g1 in
          let (wired, connected, g3) =
            >>=-eq-ok
              (wire read_key header_safe entry.id entry.kind entry.base_url entry.key_file t) _
              g2 in
          let (spoken, keyed, key_sent, wiring) =
            wire-WiredTo entry entry.kind entry.key_file t connected in
          let table = entry_rates-AreRates entry.id entry.models entry.rates rates rated in
          subst (IsSound read_key entry t) (same (built cost rates wired) g3) (record {
            origin = u;
            base_url = refl;
            id = refl;
            named = n;
            models = refl;
            models_named = m;
            kind = refl;
            spoken = spoken;
            precedence = refl;
            costed = parse_cost-IsCosted entry.id entry.cost cost costed;
            rates = table;
            rated = AreRates-IsListed entry.rates entry.models rates table;
            keyed = keyed;
            key_sent = key_sent;
            upstream = wired.1;
            proxied = refl;
            wired = wiring;
          })
        where
          same : (x : Backend) → ◌≡◌ {A = Result BackendError Backend} (ok x) (ok b) → x ≡ b
          same x e = ground arith

  -- Each entry of the configuration against the backend that it became.
  abbrev pub AreSound : List BackendEntry → (head_timeout : ℕ) → List Backend → Type 0
  AreSound [] t [] = Unit
  AreSound (entry ∷ es) t (b ∷ bs) = IsSound read_key entry t b × AreSound es t bs
  AreSound _ t _ = ⊥

  build_all-AreSound :
      (es : List BackendEntry) (t : ℕ) (bs : List Backend)
      → build_all read_key header_safe es t ≡ ok bs
      → AreSound es t bs
  unfolding build_all
  build_all-AreSound [] t [] h = tt
  build_all-AreSound [] t (b ∷ bs) h = cc
  build_all-AreSound (entry ∷ es) t out h =
      let (b, built, h1) = >>=-eq-ok (build_backend read_key header_safe entry t) _ h in
      let (bs, rest, h2) = >>=-eq-ok (build_all read_key header_safe es t) _ h1 in
      subst (AreSound (entry ∷ es) t) (same (b ∷ bs) h2)
        (build_backend-IsSound entry t b built, build_all-AreSound es t bs rest)
    where
      same :
          (x : List Backend)
          → ◌≡◌ {A = Result BackendError (List Backend)} (ok x) (ok out)
          → x ≡ out
      same x e = ground arith

  some_entries-eq :
      (es found : List BackendEntry) → some_entries es ≡ ok found → (es ≡ found) × (found ≢ [])
  some_entries-eq [] found h = cc
  some_entries-eq (e ∷ es) found h =
      let same : e ∷ es ≡ found = ground arith in (same, λ empty. cc (same, empty))

  well_formed-ok :
      (read : Result String (List BackendEntry)) (es : List BackendEntry)
      → well_formed read ≡ ok es
      → read ≡ ok es
  well_formed-ok (ok found) es h = ground arith
  well_formed-ok (err message) es h = cc

  -- A configuration that loads is the array that was read, not empty, each entry of it a backend of
  -- its own in its place: with the entry's id, kind, models and precedence, no blank name among them;
  -- its cost as it reads, and not zero; its table of rates, only for its models; a proxy to the entry's
  -- `http://` origin, less its last slashes, under the given deadline, that sends the trimmed text of
  -- the entry's key file, where it has one, and then to an OpenAI-compatible origin. In that registry the
  -- backend that a named model is routed to strictly outranks every other that serves it.
  pub load_backends-AreSound :
      (from_str : String → Result String (List BackendEntry)) (raw : String) (t : ℕ)
      (bs : List Backend)
      → load_backends read_key header_safe from_str raw t ≡ ok bs
      → ((es : List BackendEntry) × (from_str raw ≡ ok es) × (es ≢ []) × AreSound es t bs)
        × ((model : String) (b : Backend)
            → route bs (some model) ≡ ok b
            → All
                (λ o. serves model o ≡ true → (o ≡ b) ⊎ (lt_rank o.precedence b.precedence ≡ true))
                bs)
  unfolding load_backends
  load_backends-AreSound from_str raw t bs h =
      let (es, read, h1) = >>=-eq-ok (well_formed (from_str raw)) _ h in
      let (found, nonempty, h2) = >>=-eq-ok (some_entries es) _ h1 in
      let (built, sound, h3) = >>=-eq-ok (build_all read_key header_safe found t) _ h2 in
      let (checked, last) = >>-eq-ok (check_registry built) (ok built) h3 in
      let (same, some_one) = some_entries-eq es found nonempty in
      (
        (
          found,
          well_formed-ok (from_str raw) found (read_same es found same read),
          some_one,
          subst (AreSound found t) (result last) (build_all-AreSound found t built sound),
        ),
        (λ model b routed.
            route-unambiguous bs model b
              (subst (λ r. check_registry r ≡ ok tt) (result last) checked) routed),
      )
    where
      result :
          {x : List Backend} → ◌≡◌ {A = Result BackendError (List Backend)} (ok x) (ok bs) → x ≡ bs
      result e = ground arith

      read_same :
          (es found : List BackendEntry)
          → es ≡ found
          → well_formed (from_str raw) ≡ ok es
          → well_formed (from_str raw) ≡ ok found
      read_same es found e r = r ∙ ap ok e
