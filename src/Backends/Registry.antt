-- ===== src/Backends/Registry.antt =====
-- `check_registry` of obolus/src/backends.rs: the rules of a whole registry.
use obolus.Prelude.{
  String, ℤ, Bool, ◌&&◌, not, Option, none, some, List, [], ◌∷◌, contains, filter, find, any, map,
  lt_rank, str_eq, if◌then◌else◌, length, ltb,
}
use obolus.Prelude.Results.{Result, ok, err, ◌>>◌}
use obolus.Backends.{Backend, Kind, is_catch_all}
use obolus.Backends.Rates.{RateDefect}

pub data BackendError : Type 0 where
  malformed : String → BackendError
  empty : BackendError
  duplicate_backend_id catch_all_with_siblings : (id : String) → BackendError
  -- The ids are kept as a list; the message joins them.
  ambiguous_route : (model : String) → (ids : List String) → BackendError
  kind_not_implemented key_on_keyless_kind : (id : String) → Kind → BackendError
  empty_id : BackendError
  bad_base_url : (id : String) → (base_url : String) → BackendError
  key_file_unreadable : (id : String) → (file : String) → (detail : String) → BackendError
  empty_key_file key_not_text key_not_header_safe : (id : String) → (file : String) → BackendError
  empty_model_alias zero_cost : (id : String) → BackendError
  bad_cost : (id : String) → (value : String) → BackendError
  bad_rates : (id : String) → RateDefect → BackendError

abbrev pub eq_rank : Option ℤ → Option ℤ → Bool
eq_rank a b = not (lt_rank a b) && not (lt_rank b a)

-- The three loops; each backend is compared with the ones after it.
unfoldable pub check_ids : List Backend → Result BackendError Unit
check_ids [] = ok tt
check_ids (a ∷ bs) =
    if any (λ b. str_eq b.id a.id) bs then err (duplicate_backend_id a.id) else check_ids bs

abbrev pub refuse : Option Backend → Result BackendError Unit
refuse none = ok tt
refuse (some b) = err (catch_all_with_siblings b.id)

abbrev pub check_catch_all : List Backend → Result BackendError Unit
check_catch_all bs = if ltb 1 (length bs) then refuse (find is_catch_all bs) else ok tt

abbrev pub clashes : Backend → String → Backend → Bool
clashes a model b = eq_rank b.precedence a.precedence && contains model b.models

unfoldable pub check_models : Backend → List Backend → List String → Result BackendError Unit
check_models a bs [] = ok tt
check_models a bs (model ∷ models) =
    if any (clashes a model) bs
    then err (ambiguous_route model (a.id ∷ map (λ b. b.id) (filter (clashes a model) bs)))
    else check_models a bs models

unfoldable pub check_routes : List Backend → Result BackendError Unit
unfolding check_models
check_routes [] = ok tt
check_routes (a ∷ bs) = check_models a bs a.models >> check_routes bs

unfoldable pub check_registry : List Backend → Result BackendError Unit
unfolding check_ids check_routes
check_registry bs = check_ids bs >> (check_catch_all bs >> check_routes bs)
