-- ===== src/Json.antt =====
-- `serde_json::Value`, the data that obolus/src/x402/v2.rs compares payments by. A map keeps its keys
-- in order (`serde_json` without `preserve_order`), so two maps are equal entry by entry; an array
-- and an object have list types of their own.
pub mod Equality
use obolus.Prelude.{
  ℕ, String, Bool, true, false, ◌&&◌, Option, none, some, List, [], ◌∷◌, ◌==◌, str_eq, is_some,
  if◌then◌else◌,
}

-- `serde_json::Number`: a float is kept by its text, since the program only compares it.
pub data Number : Type 0 where
  unsigned : ℕ → Number
  -- `negative n` is -(n + 1).
  negative : ℕ → Number
  float : String → Number

mutual
  pub data Value : Type 0 where
    null : Value
    boolean : Bool → Value
    number : Number → Value
    string : String → Value
    array : Items → Value
    object : Fields → Value

  pub data Items : Type 0 where
    nil : Items
    item : Value → Items → Items

  pub data Fields : Type 0 where
    end : Fields
    field : String → Value → Fields → Fields

-- `Map::get`.
unfoldable pub get_field : String → Fields → Option Value
get_field k end = none
get_field k (field j v fs) = if str_eq j k then some v else get_field k fs

-- `Map::remove`, the map that it leaves.
unfoldable pub remove_field : String → Fields → Fields
remove_field k end = end
remove_field k (field j v fs) = if str_eq j k then fs else field j v (remove_field k fs)

-- `Value::get`, `as_object`, `as_str` and `as_u64`.
abbrev pub get : String → Value → Option Value
get k (object fs) = get_field k fs
get k _ = none

abbrev pub as_object : Value → Option Fields
as_object (object fs) = some fs
as_object _ = none

abbrev pub as_str : Value → Option String
as_str (string s) = some s
as_str _ = none

abbrev pub as_u64 : Value → Option ℕ
as_u64 (number (unsigned n)) = some n
as_u64 _ = none

unfoldable pub bool_eq : Bool → Bool → Bool
bool_eq true b = b
bool_eq false true = false
bool_eq false false = true

unfoldable pub number_eq : Number → Number → Bool
number_eq (unsigned n) (unsigned m) = n == m
number_eq (negative n) (negative m) = n == m
number_eq (float s) (float t) = str_eq s t
number_eq _ _ = false

-- `==` on values.
unfoldable mutual
  pub value_eq : Value → Value → Bool
  value_eq null null = true
  value_eq (boolean a) (boolean b) = bool_eq a b
  value_eq (number a) (number b) = number_eq a b
  value_eq (string a) (string b) = str_eq a b
  value_eq (array xs) (array ys) = items_eq xs ys
  value_eq (object fs) (object gs) = fields_eq fs gs
  value_eq _ _ = false

  pub items_eq : Items → Items → Bool
  items_eq nil nil = true
  items_eq (item x xs) (item y ys) = value_eq x y && items_eq xs ys
  items_eq _ _ = false

  pub fields_eq : Fields → Fields → Bool
  fields_eq end end = true
  fields_eq (field j v fs) (field k w gs) = str_eq j k && value_eq v w && fields_eq fs gs
  fields_eq _ _ = false
