-- ===== src/Json/Equality.antt =====
-- The comparisons of JSON values decide equality, and how the lookups see the removals.
use obolus.Prelude.{
  str_eq, ◌&&◌, String, ◌≡◌, ◌≢◌, ◌↔◌, refl, Bool, true, arith, eq_iff, and-eq-true_iff, ap,
  eq_refl,
}
use obolus.Json.{
  Number, unsigned, negative, float, Value, Items, Fields, null, boolean, number, string, array,
  object, nil, item, end, field, get_field, remove_field, bool_eq, number_eq, value_eq, items_eq,
  fields_eq,
}

bool_eq_sound : (a b : Bool) → bool_eq a b ≡ true → a ≡ b
unfolding bool_eq
bool_eq_sound a b h = ground arith

number_eq_sound : (a b : Number) → number_eq a b ≡ true → a ≡ b
unfolding number_eq
number_eq_sound (unsigned n) (unsigned m) h = ground arith
number_eq_sound (negative n) (negative m) h = ground arith
number_eq_sound (float s) (float t) h = ap float ((eq_iff s t).0 h)
number_eq_sound _ _ h = cc

mutual
  unfolding value_eq

  value_sound : (v w : Value) → value_eq v w ≡ true → v ≡ w
  value_sound null null h = refl
  value_sound (boolean a) (boolean b) h = ap boolean (bool_eq_sound a b h)
  value_sound (number a) (number b) h = ap number (number_eq_sound a b h)
  value_sound (string a) (string b) h = ap string ((eq_iff a b).0 h)
  value_sound (array xs) (array ys) h = ap array (items_sound xs ys h)
  value_sound (object fs) (object gs) h = ap object (fields_sound fs gs h)
  value_sound _ _ h = cc

  items_sound : (xs ys : Items) → items_eq xs ys ≡ true → xs ≡ ys
  items_sound nil nil h = refl
  items_sound (item x xs) (item y ys) h =
      let (same, rest) = (and-eq-true_iff (value_eq x y) (items_eq xs ys)).0 h in
      cc (value_sound x y same, items_sound xs ys rest)
  items_sound _ _ h = cc

  fields_sound : (fs gs : Fields) → fields_eq fs gs ≡ true → fs ≡ gs
  fields_sound end end h = refl
  fields_sound (field j v fs) (field k w gs) h =
      let (same, rest) = (and-eq-true_iff (str_eq j k && value_eq v w) (fields_eq fs gs)).0 h in
      let (key, value) = (and-eq-true_iff (str_eq j k) (value_eq v w)).0 same in
      cc ((eq_iff j k).0 key, value_sound v w value, fields_sound fs gs rest)
  fields_sound _ _ h = cc

bool_eq_refl : (b : Bool) → bool_eq b b ≡ true
unfolding bool_eq
bool_eq_refl b = ground arith

number_eq_refl : (n : Number) → number_eq n n ≡ true
unfolding number_eq
number_eq_refl (unsigned n) = ground arith
number_eq_refl (negative n) = ground arith
number_eq_refl (float s) = eq_refl s

mutual
  unfolding value_eq

  value_same : (v : Value) → value_eq v v ≡ true
  value_same null = refl
  value_same (boolean b) = bool_eq_refl b
  value_same (number n) = number_eq_refl n
  value_same (string s) = eq_refl s
  value_same (array xs) = items_same xs
  value_same (object fs) = fields_same fs

  items_same : (xs : Items) → items_eq xs xs ≡ true
  items_same nil = refl
  items_same (item x xs) = rw (value_same x) (items_same xs)

  fields_same : (fs : Fields) → fields_eq fs fs ≡ true
  fields_same end = refl
  fields_same (field k v fs) = rw (eq_refl k, value_same v) (fields_same fs)

pub value_eq_iff : (v w : Value) → (value_eq v w ≡ true) ↔ (v ≡ w)
value_eq_iff v w = (value_sound v w, λ e. rw (← e) (value_same v))

pub fields_eq_iff : (fs gs : Fields) → (fields_eq fs gs ≡ true) ↔ (fs ≡ gs)
fields_eq_iff fs gs = (fields_sound fs gs, λ e. rw (← e) (fields_same fs))

-- Removing one key leaves what is found at every other.
pub get_field-remove_ne :
    (k j : String) (fs : Fields) → k ≢ j → get_field j (remove_field k fs) ≡ get_field j fs
unfolding get_field remove_field
get_field-remove_ne k j end h = refl
get_field-remove_ne k j (field i v fs) h =
    ground (arith, get_field-remove_ne k j fs h, eq_iff i k, eq_iff i j)
