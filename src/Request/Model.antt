-- ===== src/Request/Model.antt =====
-- The one pass reads `model` as the derived reader of `model` alone does, on every body.
use obolus.Prelude.{
  String, ◌≡◌, ◌≢◌, ◌⊎◌, inl, inr, refl, sym, ◌∙◌, Bool, true, false, ◌&&◌, Option, none, some,
  List, [], ◌∷◌, All, arith, str_eq, unwrap_or, is_some, if◌then◌else◌,
}
use obolus.Request.Keys.{
  Key, model, max_tokens, max_completion_tokens, n, n_variant, best_of, other, variant, key_of,
  folded_key,
}
use obolus.Request.Reader.{Visit, visit_str, visit_unit, Entry, Shape, map, seq, neither, Document}
use obolus.Request.Pass.{
  Scan, Stepped, start, read_model, strictly, step_key, visit_entries, top_level, read_text,
  model_field, model_shape, model_only,
}
use obolus.Request.{shape_of, parse}

-- What the program relies on in the reader: a value that is read is a value that can be skipped.
abbrev pub IsCoherent : Entry → Type 0
IsCoherent e = is_some e.strict ≡ true → e.skips ≡ true

abbrev pub IsCoherentShape : Shape → Type 0
IsCoherentShape (map es closed) = All IsCoherent es
IsCoherentShape _ = Unit

folded_key-ne-model : (k : String) → folded_key k ≢ model
unfolding folded_key
folded_key-ne-model k = ground arith

key_of-eq-model : (k : String) → key_of k ≡ model → str_eq k "model" ≡ true
unfolding key_of
key_of-eq-model k h = ground (arith, folded_key-ne-model k)

key_of-ne-model : (k : String) → key_of k ≢ model → str_eq k "model" ≡ false
unfolding key_of
key_of-ne-model k h = ground arith

-- A key that is not `model` leaves what the pass knows of the model.
record LeavesModel (e : Entry) (scan : Scan) (s : Stepped) : Type 0 where
  model : s.0.model ≡ scan.model
  seen : s.0.model_seen ≡ scan.model_seen
  poisoned : s.0.poisoned ≡ scan.poisoned
  read :
      ((s.1 ≡ true) × (e.skips ≡ true) × (s.0.in_judged_value ≡ false))
      ⊎ ((s.1 ≡ false) × ((e.skips ≡ false) ⊎ (s.0.in_judged_value ≡ true)))

step_other :
    (k : Key) (e : Entry) (scan : Scan)
    → k ≢ model
    → IsCoherent e
    → scan.in_judged_value ≡ false
    → LeavesModel e scan (step_key k e scan)
unfolding step_key
step_other model e scan ne c j = absurd (ne refl)
step_other max_tokens e scan ne c j = ground arith
step_other n e scan ne c j = ground arith
step_other max_completion_tokens e scan ne c j = ground arith
step_other n_variant e scan ne c j = ground arith
step_other best_of e scan ne c j = ground arith
step_other other e scan ne c j = ground arith
step_other (variant w) e scan ne c j = ground arith

-- What the pass makes of the model, and when it leaves the answer to the derived reader.
abbrev answer : Stepped → Option String
answer s = if s.1 then s.0.model else none

abbrev Defers : Stepped → Type 0
Defers s = (s.1 ≡ false) × (s.0.in_judged_value ≡ true)

abbrev rest_of : Stepped → List Entry → Bool → Stepped
rest_of s es closed = if s.1 then visit_entries es closed s.0 else (s.0, false)

-- A key of a poisoned pass leaves it poisoned.
poisoned_step :
    (k : Key) (e : Entry) (scan : Scan)
    → IsCoherent e
    → scan.in_judged_value ≡ false
    → scan.poisoned ≡ true
    → (((step_key k e scan).1 ≡ true)
        × ((step_key k e scan).0.in_judged_value ≡ false)
        × ((step_key k e scan).0.poisoned ≡ true))
      ⊎ ((step_key k e scan).1 ≡ false)
unfolding step_key
poisoned_step model e scan c j p = ground arith
poisoned_step max_tokens e scan c j p = ground arith
poisoned_step n e scan c j p = ground arith
poisoned_step _ e scan c j p = ground arith

-- A poisoned pass reads no model.
poisoned_answer :
    (es : List Entry) (closed : Bool) (scan : Scan)
    → All IsCoherent es
    → scan.in_judged_value ≡ false
    → scan.poisoned ≡ true
    → Defers (visit_entries es closed scan) ⊎ (none ≡ answer (visit_entries es closed scan))
unfolding visit_entries
poisoned_answer [] closed scan c j p = ground arith
poisoned_answer (e ∷ es) closed scan c j p = elim (poisoned_step (key_of e.key) e scan c.0 j p) [
  | inl (read, judged, poisoned) ↦ rw read (poisoned_answer es closed _ c.1 judged poisoned)
  | inr unread ↦ rw unread (inr refl)
]

record Tracks (scan : Scan) (found : Option (Option String)) : Type 0 where
  seen : scan.model_seen ≡ is_some found
  model : scan.model ≡ unwrap_or found none

is_model : (k : Key) → (k ≡ model) ⊎ (k ≢ model)
is_model model = inl refl
is_model max_tokens = inr (cc)
is_model _ = inr (cc)

-- The claim of the induction below, for the entries that follow a key.
abbrev Agrees : List Entry → Bool → Scan → Option (Option String) → Type 0
Agrees es closed scan found =
    Defers (visit_entries es closed scan)
    ⊎ (unwrap_or (model_field es closed found) none ≡ answer (visit_entries es closed scan))

after_poison :
    (es : List Entry) (closed : Bool) (next : Scan) (read : Bool)
    → All IsCoherent es
    → next.in_judged_value ≡ false
    → next.poisoned ≡ true
    → Defers (rest_of (next, read) es closed) ⊎ (none ≡ answer (rest_of (next, read) es closed))
after_poison es closed next true c j p = poisoned_answer es closed next c j p
after_poison es closed next false c j p = inr refl

step_again :
    (e : Entry) (scan : Scan)
    → scan.model_seen ≡ true
    → step_key model e scan ≡ (record scan { poisoned = true }, e.skips)
unfolding step_key
step_again e scan h = ground arith

step_first :
    (e : Entry) (scan : Scan)
    → scan.model_seen ≡ false
    → step_key model e scan
      ≡ strictly e.strict (record scan { model_seen = true }) (λ v. read_model v scan)
unfolding step_key
step_first e scan h = ground arith

module _ (es : List Entry) (closed : Bool) (c : All IsCoherent es) (scan : Scan)
    (judged : scan.in_judged_value ≡ false) (poisoned : scan.poisoned ≡ false)
    (ih : (next : Scan) (f : Option (Option String))
      → next.in_judged_value ≡ false
      → next.poisoned ≡ false
      → Tracks next f
      → Agrees es closed next f) where
  agree_first :
      (strict : Option Visit)
      → scan.model ≡ none
      → Defers (
          rest_of
            (strictly strict (record scan { model_seen = true }) (λ v. read_model v scan))
            es
            closed)
        ⊎ (unwrap_or
              (if is_some (read_text strict)
                then model_field es closed (read_text strict)
                else none)
              none
            ≡ answer (
                rest_of
                  (strictly strict (record scan { model_seen = true }) (λ v. read_model v scan))
                  es
                  closed))
  unfolding read_model
  agree_first none m = inr refl
  agree_first (some (visit_str s)) m =
      ih (record scan { model_seen = true; model = some s }) (some (some s)) judged poisoned
        (record { seen = refl; model = refl })
  agree_first (some visit_unit) m =
      ih (record scan { model_seen = true }) (some none) judged poisoned
        (record { seen = refl; model = m })
  agree_first (some _) m =
      after_poison es closed (record scan { model_seen = true; poisoned = true }) true c judged refl

  agree_model :
      (e : Entry) (found : Option (Option String))
      → Tracks scan found
      → Defers (rest_of (step_key model e scan) es closed)
        ⊎ (unwrap_or
              (if is_some found
                then none
                else if is_some (read_text e.strict)
                then model_field es closed (read_text e.strict)
                else none)
              none
            ≡ answer (rest_of (step_key model e scan) es closed))
  agree_model e none t = rw (step_first e scan t.seen) (agree_first e.strict t.model)
  agree_model e (some x) t =
      rw (step_again e scan t.seen)
        (after_poison es closed (record scan { poisoned = true }) e.skips c judged refl)

  agree_other :
      (e : Entry) (s : Stepped) (found : Option (Option String)) (named skips : Bool)
      (if_named : Option (Option String))
      → LeavesModel e scan s
      → named ≡ false
      → e.skips ≡ skips
      → Tracks scan found
      → Defers (rest_of s es closed)
        ⊎ (unwrap_or
              (if named then if_named else if skips then model_field es closed found else none)
              none
            ≡ answer (rest_of s es closed))
  agree_other e s found named skips if_named l unnamed same t = elim l.read [
    | inl (read, skipped, judged) ↦
        rw (read, unnamed, sym same ∙ skipped)
          (ih _ found judged (l.poisoned ∙ poisoned)
            (record { seen = l.seen ∙ t.seen; model = l.model ∙ t.model }))
    | inr (unread, inl stuck) ↦ rw (unread, unnamed, sym same ∙ stuck) (inr refl)
    | inr (unread, inr judged) ↦ rw unread (inl (refl, judged))
  ]

agree :
    (es : List Entry) (closed : Bool) (scan : Scan) (found : Option (Option String))
    → All IsCoherent es
    → scan.in_judged_value ≡ false
    → scan.poisoned ≡ false
    → Tracks scan found
    → Defers (visit_entries es closed scan)
      ⊎ (unwrap_or (model_field es closed found) none ≡ answer (visit_entries es closed scan))
unfolding visit_entries model_field
agree [] closed scan found c j p t = ground arith
agree (e ∷ es) closed scan found c j p t = elim (is_model (key_of e.key)) [
  | inl here ↦
      rw (here, key_of-eq-model e.key here)
        (agree_model es closed c.1 scan j p (λ next f. agree es closed next f c.1) e found t)
  | inr elsewhere ↦
      agree_other es closed c.1 scan j p (λ next f. agree es closed next f c.1) e
        (step_key (key_of e.key) e scan) found (str_eq e.key "model") e.skips _
        (step_other (key_of e.key) e scan elsewhere c.0 j) (key_of-ne-model e.key elsewhere) refl t
]

top_level_agrees :
    (s : Shape)
    → IsCoherentShape s
    → Defers (top_level s) ⊎ (unwrap_or (model_shape s) none ≡ answer (top_level s))
unfolding top_level model_shape
top_level_agrees (map es closed) c =
    agree es closed start none c refl refl (record { seen = refl; model = refl })
top_level_agrees (seq none) c = inr refl
top_level_agrees (seq (some first)) c = inr refl
top_level_agrees neither c = inr refl

shape_model :
    (d : Document) (s : Stepped)
    → Defers s ⊎ (unwrap_or (model_shape d.shape) none ≡ answer s)
    → (shape_of d s.0 (s.1 && d.ends)).model ≡ model_only d
unfolding shape_of model_only
shape_model d s (inl (unread, judged)) = rw (unread, judged) refl
shape_model d s (inr same) = ground arith

-- On every body, whatever else it holds, the model that the pass reads is the one that a derived
-- reader of `model` alone reads, if a value that can be read can also be skipped.
pub parse-model : (d : Document) → IsCoherentShape d.shape → (parse d).model ≡ model_only d
unfolding parse
parse-model d c = shape_model d (top_level d.shape) (top_level_agrees d.shape c)
