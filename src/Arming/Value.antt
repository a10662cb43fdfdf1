-- ===== src/Arming/Value.antt =====
-- What `parse_arming` of obolus/src/arming.rs reads out of the operator's value.
use Prim.Native.Char.{Char, code}
use text.Mathlib.TextEquality.{Char-path}
use obolus.Prelude.{
  ℕ, suc, String, ◌≡◌, refl, sym, subst, ap, inl, inr, ◌∙◌, Bool, true, false, some, List, [], ◌∷◌,
  ◌++◌, contains, is_empty, trim, str_eq, ◌==◌, arith, Bool-cases, if◌then◌else◌,
}
use obolus.Prelude.Results.{Result, ok}
use obolus.Arming.{ArmingValueError, onto_first, split_commas, take_entries, parse_arming}

-- The ids with a comma between them.
abbrev pub followed_by : String → String → String
followed_by String.[] t = t
followed_by (String.◌∷◌ c s) t = String.◌∷◌ c (followed_by s t)

unfoldable pub join_commas : List String → String
join_commas [] = ""
join_commas (piece ∷ []) = piece
join_commas (piece ∷ next ∷ pieces) =
    followed_by piece (String.◌∷◌ "," (join_commas (next ∷ pieces)))

join-onto_first :
    (c : Char) (pieces : List String)
    → join_commas (onto_first c pieces) ≡ String.◌∷◌ c (join_commas pieces)
unfolding join_commas
join-onto_first c [] = refl
join-onto_first c (piece ∷ []) = refl
join-onto_first c (piece ∷ next ∷ pieces) = refl

split_commas-nonempty : (s : String) → (p : String) × (ps : List String) × (split_commas s ≡ p ∷ ps)
unfolding split_commas
split_commas-nonempty String.[] = ("", [], refl)
split_commas-nonempty (String.◌∷◌ c s) = pieces (code c == 44) (split_commas s)
  where
    pieces :
        (comma : Bool) (rest : List String)
        → (p : String) × (ps : List String) × ((if comma then "" ∷ rest else onto_first c rest)
            ≡ p ∷ ps)
    pieces true rest = ("", rest, refl)
    pieces false [] = (String.◌∷◌ c "", [], refl)
    pieces false (p ∷ ps) = (String.◌∷◌ c p, ps, refl)

join-comma :
    (rest : List String) (p : String) (ps : List String)
    → rest ≡ p ∷ ps
    → join_commas ("" ∷ rest) ≡ String.◌∷◌ "," (join_commas rest)
unfolding join_commas
join-comma rest p ps h = rw h refl

join-split : (s : String) → join_commas (split_commas s) ≡ s
unfolding split_commas
join-split String.[] = unfold join_commas in refl
join-split (String.◌∷◌ c s) = pieces (code c == 44) refl (split_commas-nonempty s) (join-split s)
  where
    pieces :
        (comma : Bool)
        → (code c == 44) ≡ comma
        → (p : String) × (ps : List String) × (split_commas s ≡ p ∷ ps)
        → join_commas (split_commas s) ≡ s
        → join_commas (if comma then "" ∷ split_commas s else onto_first c (split_commas s))
          ≡ String.◌∷◌ c s
    pieces true e (p, ps, shape) ih =
        join-comma (split_commas s) p ps shape ∙ rw (ih, Char-path c "," (comma_code e)) refl
      where
        comma_code : (code c == 44) ≡ true → code c ≡ 44
        comma_code h = ground arith
    pieces false e shape ih = join-onto_first c (split_commas s) ∙ ap (String.◌∷◌ c) ih

-- No entry is blank, and none is among those before it.
abbrev pub IsFresh : List String → List String → Type 0
IsFresh before [] = Unit
IsFresh before (id ∷ ids) =
    (is_empty (trim id) ≡ false) × (contains id before ≡ false) × IsFresh (before ++ (id ∷ [])) ids

append_assoc :
    (xs : List String) (y : String) (ys : List String) → (xs ++ (y ∷ [])) ++ ys ≡ xs ++ (y ∷ ys)
append_assoc [] y ys = refl
append_assoc (x ∷ xs) y ys = ap (λ l. x ∷ l) (append_assoc xs y ys)

append_nil : (xs : List String) → xs ++ [] ≡ xs
append_nil [] = refl
append_nil (x ∷ xs) = ap (λ l. x ∷ l) (append_nil xs)

take_entries-IsFresh :
    (entries : List String) (index : ℕ) (before ids : List String)
    → take_entries index before entries ≡ ok ids
    → (ids ≡ before ++ entries) × IsFresh before entries
unfolding take_entries
take_entries-IsFresh [] index before ids h = (ok_eq h ∙ sym (append_nil before), tt)
  where
    ok_eq : ◌≡◌ {A = Result ArmingValueError (List String)} (ok before) (ok ids) → ids ≡ before
    ok_eq e = ground arith
take_entries-IsFresh (entry ∷ entries) index before ids h =
    elim (Bool-cases (is_empty (trim entry))) [
      | inl blank ↦ absurd (ground arith)
      | inr present ↦ elim (Bool-cases (contains entry before)) [
        | inl again ↦ absurd (ground arith)
        | inr fresh ↦
            let (whole, rest) =
              take_entries-IsFresh entries (suc index) (before ++ (entry ∷ [])) ids
                (ground arith) in
            (whole ∙ append_assoc before entry entries, (present, fresh, rest))
      ]
    ]

-- A value that is read names the ids exactly as it spells them: with commas between them they are the
-- value again, no id is blank, and no id is listed twice.
pub parse_arming-IsFresh :
    (raw : String) (ids : List String)
    → parse_arming (some raw) ≡ ok ids
    → (join_commas ids ≡ raw) × IsFresh [] ids
unfolding parse_arming
parse_arming-IsFresh raw ids h = elim (Bool-cases (is_empty (trim raw))) [
  | inl blank ↦ absurd (ground arith)
  | inr present ↦ elim (Bool-cases (str_eq (trim raw) "1")) [
    | inl retired ↦ absurd (ground arith)
    | inr named ↦
        let (whole, fresh) = take_entries-IsFresh (split_commas raw) 0 [] ids (ground arith) in
        (ap join_commas whole ∙ join-split raw, subst (IsFresh []) (sym whole) fresh)
  ]
]
