-- ===== src/Request/Tests.antt =====
-- Concrete bodies.
use obolus.Prelude.{◌≡◌, refl, true, some, [], ◌∷◌}
use obolus.Request.{parse}
use obolus.Request.Reader.{visit_str, visit_u64, map, Document}
use obolus.Request.Pass.{limit, invalid, model_only}
use obolus.Request.Model.{parse-model}

-- `{"model":"tiny","Max_Tokens":9,"max_tokens":100}` is refused for its second key.
abbrev variant_document : Document
variant_document = record {
  shape =
      map
        (record { key = "model"; strict = some (visit_str "tiny"); skips = true }
          ∷ record { key = "Max_Tokens"; strict = some (visit_u64 9); skips = true }
          ∷ record { key = "max_tokens"; strict = some (visit_u64 100); skips = true }
          ∷ [])
        true;
  ends = true;
  body_len = 48;
}

variant_limit : (parse variant_document).max_tokens ≡ invalid
unfolding parse obolus.Request.Pass.step_key obolus.Request.Keys.key_of
variant_limit = refl

parse-model_example : (parse variant_document).model ≡ model_only variant_document
parse-model_example = parse-model variant_document ((λ r. refl), ((λ r. refl), ((λ r. refl), tt)))
