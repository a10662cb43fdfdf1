-- ===== src/Backends/Rates.antt =====
-- `rates` of obolus/src/backends.rs: the loose reading of a JSON value, `parse_rates`, `parse_rate`
-- and `parse_rate_value`.
use obolus.Prelude.{
  ℕ, String, Bool, true, false, ◌&&◌, not, Option, none, some, List, [], ◌∷◌, all, codes, contains,
  is_ascii_digit, is_empty, is_some, ◌==◌, str_eq, trim, if◌then◌else◌,
}
use obolus.Prelude.Results.{Result, ok, err, ok_or, ◌>>=◌}
use obolus.Amount.{parse_u128}
use obolus.Json.{Value, null, boolean, number, string, array, object, Fields, end, field}
use obolus.Backends.{TokenRate, ModelRates, rate_of}

-- An object keeps every entry in order, repeated keys too; any other value keeps its kind.
pub data Loose (V : Type 0) : Type 0 where
  entries : List (String × V) → Loose V
  kind_only : String → Loose V

-- The reader of `Loose`, on the value that its visitor walks.
unfoldable pub entries_of : {V : Type 0} → (Value → V) → Fields → List (String × V)
entries_of read end = []
entries_of read (field k v fs) = (k, read v) ∷ entries_of read fs

unfoldable pub read_loose : {V : Type 0} → (Value → V) → Value → Loose V
unfolding entries_of
read_loose read (object fs) = entries (entries_of read fs)
read_loose read (array vs) = kind_only "an array"
read_loose read (string s) = kind_only "a string"
read_loose read (boolean b) = kind_only "a boolean"
read_loose read (number i) = kind_only "a number"
read_loose read null = kind_only "null"

-- A field of a rate, `"input"` or `"output"` in a message.
pub data Side : Type 0 where
  input output : Side

pub data RateDefect : Type 0 where
  not_json not_an_object : String → RateDefect
  empty empty_model : RateDefect
  duplicate_model unserved_model : String → RateDefect
  rate_not_an_object unknown_key duplicate_key : (model : String) → String → RateDefect
  missing_field : (model : String) → Side → RateDefect
  not_a_string bad_value : (model : String) → Side → String → RateDefect
  both_zero : (model : String) → RateDefect

abbrev pub digits_only : String → Bool
digits_only s = not (is_empty s) && all is_ascii_digit (codes s)

abbrev pub accept_digits : String → Side → String → Option ℕ → Result RateDefect ℕ
accept_digits model side text none = err (bad_value model side text)
accept_digits model side text (some rate) =
    if digits_only text then ok rate else err (bad_value model side text)

unfoldable pub parse_rate_value : String → Side → Value → Result RateDefect ℕ
parse_rate_value model side (string text) = accept_digits model side text (parse_u128 text)
parse_rate_value model side (number i) = err (not_a_string model side "a number")
parse_rate_value model side (boolean b) = err (not_a_string model side "a boolean")
parse_rate_value model side null = err (not_a_string model side "null")
parse_rate_value model side (array vs) = err (not_a_string model side "an array")
parse_rate_value model side (object fs) = err (not_a_string model side "an object")

-- The two locals of `parse_rate`.
pub record Slots : Type 0 where
  pub input_slot : Option ℕ
  pub output_slot : Option ℕ

abbrev pub side_of : String → Option Side
side_of key =
    if str_eq key "input" then some input else if str_eq key "output" then some output else none

abbrev pub slot : Side → Slots → Option ℕ
slot input s = s.input_slot
slot output s = s.output_slot

abbrev pub set_slot : Side → ℕ → Slots → Slots
set_slot input rate s = record s { input_slot = some rate }
set_slot output rate s = record s { output_slot = some rate }

-- One round of the loop over the fields.
unfoldable pub take_field : String → Slots → String → Value → Result RateDefect Slots
take_field model s key value = elim (side_of key) [
  | none ↦ err (unknown_key model key)
  | some side ↦
      if is_some (slot side s)
      then err (duplicate_key model key)
      else (parse_rate_value model side value >>= λ rate. ok (set_slot side rate s))
]

unfoldable pub take_fields : String → Slots → List (String × Value) → Result RateDefect Slots
take_fields model s [] = ok s
take_fields model s (f ∷ fs) = take_field model s f.0 f.1 >>= λ next. take_fields model next fs

abbrev pub full_rate : String → Slots → Result RateDefect TokenRate
full_rate model s = do
  per_input ← ok_or s.input_slot (missing_field model input)
  per_output ← ok_or s.output_slot (missing_field model output)
  if (per_input == 0) && (per_output == 0)
      then err (both_zero model)
      else ok (record { input = per_input; output = per_output })

unfoldable pub parse_rate : String → Loose Value → Result RateDefect TokenRate
unfolding take_fields
parse_rate model (kind_only found) = err (rate_not_an_object model found)
parse_rate model (entries fields) =
    take_fields model (record { input_slot = none; output_slot = none }) fields >>= λ s.
    full_rate model s

abbrev pub no_models : List String → Bool
no_models [] = true
no_models (_ ∷ _) = false

-- One round of the loop over the models.
unfoldable pub take_rate :
    List String → ModelRates → String → Loose Value → Result RateDefect ModelRates
take_rate served rates model raw =
    if is_empty (trim model)
    then err empty_model
    else if is_some (rate_of model rates)
    then err (duplicate_model model)
    else if not (no_models served) && not (contains model served)
    then err (unserved_model model)
    else (parse_rate model raw >>= λ rate. ok ((model, rate) ∷ rates))

unfoldable pub take_rates :
    List String → ModelRates → List (String × Loose Value) → Result RateDefect ModelRates
take_rates served rates [] = ok rates
take_rates served rates (r ∷ rs) =
    take_rate served rates r.0 r.1 >>= λ next. take_rates served next rs

unfoldable pub parse_rates : Loose (Loose Value) → List String → Result RateDefect ModelRates
unfolding take_rates
parse_rates (kind_only found) served = err (not_an_object found)
parse_rates (entries []) served = err empty
parse_rates (entries (r ∷ rs)) served = take_rates served [] (r ∷ rs)
