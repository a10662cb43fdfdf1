-- ===== src/Telemetry/Accounts.antt =====
-- Bounds on what an event holds.
use Prim.Native.Char.{code}
use obolus.Prelude.{
  Bool, true, false, ℕ, ◌-◌, ◌+◌, ◌≤◌, String, ◌≡◌, refl, arith, leb, char_bytes, byte_len,
  if◌then◌else◌,
}
use obolus.Telemetry.{max_model_bytes, prefix_within, bounded_model}

kept_or_empty :
    (keep : Bool) (kept : String) (room : ℕ)
    → (keep ≡ true → byte_len kept ≤ room)
    → byte_len (if keep then kept else "") ≤ room
unfolding byte_len
kept_or_empty true kept room h = h refl
kept_or_empty false kept room h = omega arith

prefix_within-fits : (room : ℕ) (s : String) → byte_len (prefix_within room s) ≤ room
unfolding prefix_within byte_len
prefix_within-fits room String.[] = omega arith
prefix_within-fits room (String.◌∷◌ c s) =
    kept_or_empty (leb (char_bytes (code c)) room) _ room (λ fits.
      within (char_bytes (code c)) (prefix_within-fits (room - char_bytes (code c)) s) fits)
  where
    within :
        (width : ℕ) {rest : ℕ} → rest ≤ room - width → leb width room ≡ true → width + rest ≤ room
    within width h fits = ground arith

-- The model of an event is at most 256 bytes, and a model that fits is kept whole.
pub bounded_model-fits :
    (model : String)
    → (byte_len (bounded_model model) ≤ max_model_bytes)
      × (byte_len model ≤ max_model_bytes → bounded_model model ≡ model)
unfolding bounded_model
bounded_model-fits model =
    (ground (arith, prefix_within-fits max_model_bytes model), λ fits. ground arith)
