-- ===== src/Payment/Echo.antt =====
-- A client that echoes an option as it was offered is accepted.
use obolus.Prelude.{
  String, ◌≡◌, refl, true, Option, none, some, List, [], ◌∷◌, arith, eq_iff, Bool-cases, inl, inr,
  str_eq, eq_refl,
}
use obolus.Json.{
  Value, Fields, null, boolean, number, string, array, object, end, field, get_field, remove_field,
}
use obolus.Json.Equality.{value_eq_iff, fields_eq_iff}
use obolus.Payment.{
  PaymentRequirements, to_fields, accepts_object, is_accepted_by, without_fields,
  dynamic_extra_fields, covers, contains_subset, subset_fields, remove_all, new_payload,
}

-- A `serde_json` map holds a key once, at every depth of objects.
abbrev mutual
  pub IsMap : Value → Type 0
  IsMap (object fs) = HasUniqueKeys fs
  IsMap _ = Unit

  pub HasUniqueKeys : Fields → Type 0
  HasUniqueKeys end = Unit
  HasUniqueKeys (field k v fs) = (get_field k fs ≡ none) × IsMap v × HasUniqueKeys fs

-- Every entry of `fs` is found in `gs`.
abbrev Within : Fields → Fields → Type 0
Within end gs = Unit
Within (field k v fs) gs = (get_field k gs ≡ some v) × Within fs gs

Within-field :
    (fs gs : Fields) (k : String) (v : Value)
    → get_field k fs ≡ none
    → Within fs gs
    → Within fs (field k v gs)
unfolding get_field
Within-field end gs k v fresh w = tt
Within-field (field j x fs) gs k v fresh w =
    (ground (arith, eq_iff k j, eq_iff j k), Within-field fs gs k v (ground arith) w.1)

Within-refl : (fs : Fields) → HasUniqueKeys fs → Within fs fs
unfolding get_field
Within-refl end h = tt
Within-refl (field k v fs) h = (rw (eq_refl k), Within-field fs fs k v h.0 (Within-refl fs h.2))

mutual
  unfolding contains_subset

  contains_same : (v : Value) → IsMap v → contains_subset v v ≡ true
  contains_same (object fs) h = subset-Within fs fs h (Within-refl fs h)
  contains_same null h = (value_eq_iff null null).1 refl
  contains_same (boolean b) h = (value_eq_iff (boolean b) (boolean b)).1 refl
  contains_same (number n) h = (value_eq_iff (number n) (number n)).1 refl
  contains_same (string s) h = (value_eq_iff (string s) (string s)).1 refl
  contains_same (array xs) h = (value_eq_iff (array xs) (array xs)).1 refl

  subset-Within : (fs gs : Fields) → HasUniqueKeys fs → Within fs gs → subset_fields fs gs ≡ true
  subset-Within end gs h w = refl
  subset-Within (field k v fs) gs h w = rw (w.0, contains_same v h.1) (subset-Within fs gs h.2 w.1)

get_field-remove_none :
    (k j : String) (fs : Fields) → get_field k fs ≡ none → get_field k (remove_field j fs) ≡ none
unfolding get_field remove_field
get_field-remove_none k j end h = refl
get_field-remove_none k j (field i v fs) h = ground (arith, get_field-remove_none k j fs)

HasUniqueKeys-remove :
    (k : String) (fs : Fields) → HasUniqueKeys fs → HasUniqueKeys (remove_field k fs)
unfolding remove_field
HasUniqueKeys-remove k end h = tt
HasUniqueKeys-remove k (field j v fs) h = elim (Bool-cases (str_eq j k)) [
  | inl same ↦ rw same h.2
  | inr other ↦ rw other (get_field-remove_none j k fs h.0, h.1, HasUniqueKeys-remove k fs h.2)
]

HasUniqueKeys-remove_all :
    (ks : List String) (fs : Fields) → HasUniqueKeys fs → HasUniqueKeys (remove_all ks fs)
unfolding remove_all
HasUniqueKeys-remove_all [] fs h = h
HasUniqueKeys-remove_all (k ∷ ks) fs h =
    HasUniqueKeys-remove_all ks (remove_field k fs) (HasUniqueKeys-remove k fs h)

abbrev pub IsMapOrAbsent : Option Value → Type 0
IsMapOrAbsent none = Unit
IsMapOrAbsent (some v) = IsMap v

IsMapOrAbsent-without :
    (extra : Option Value) (ks : List String)
    → IsMapOrAbsent extra
    → IsMapOrAbsent (without_fields extra ks)
unfolding without_fields
IsMapOrAbsent-without none ks h = tt
IsMapOrAbsent-without (some (object fs)) ks h = HasUniqueKeys-remove_all ks fs h
IsMapOrAbsent-without (some null) ks h = tt
IsMapOrAbsent-without (some (boolean b)) ks h = tt
IsMapOrAbsent-without (some (number n)) ks h = tt
IsMapOrAbsent-without (some (string s)) ks h = tt
IsMapOrAbsent-without (some (array xs)) ks h = tt

contains_own : (extra : Option Value) → IsMapOrAbsent extra → covers extra extra ≡ true
unfolding covers
contains_own none h = refl
contains_own (some v) h = contains_same v h

get_extra : (r : PaymentRequirements) → get_field "extra" (to_fields r) ≡ r.extra
unfolding get_field to_fields
get_extra r = ground arith

accepts_object-to_fields :
    (r : PaymentRequirements) → IsMapOrAbsent r.extra → accepts_object r (to_fields r) ≡ true
unfolding accepts_object
accepts_object-to_fields r h =
    rw ((fields_eq_iff _ _).1 refl, get_extra r)
      (contains_own (without_fields r.extra (dynamic_extra_fields r.scheme r.network))
        (IsMapOrAbsent-without r.extra (dynamic_extra_fields r.scheme r.network) h))

-- A payment that names an option as it was offered matches it, whatever its payload, if each
-- object of the option's `extra` holds a key once.
pub is_accepted_by-new_payload :
    (resource : Option Value) (r : PaymentRequirements) (payload : Fields)
    → IsMapOrAbsent r.extra
    → is_accepted_by r (new_payload resource r payload) ≡ true
unfolding is_accepted_by new_payload get_field
is_accepted_by-new_payload resource r payload h = accepts_object-to_fields r h
