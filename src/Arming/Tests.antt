-- ===== src/Arming/Tests.antt =====
-- Concrete values through the arming guard.
use obolus.Prelude.{
  String, ◌≡◌, ◌↔◌, refl, Bool, true, false, Option, none, some, List, [], ◌∷◌, All, contains,
}
use obolus.Prelude.Results.{ok, err}
use obolus.Payment.{PaymentRequirements}
use obolus.Fixtures.{base_option}
use obolus.Arming.{
  is_provably_testnet, ArmedRequirements, near_miss, parse_arming, check_arming, undiagnosed,
  not_provably_testnet, mismatch, near_misses, arming_helps_none,
}
use obolus.Arming.Guard.{MayAdvertise, check_arming-guards}
use obolus.Arming.Value.{join_commas, IsFresh, parse_arming-IsFresh}
use obolus.Arming.Escapes.{escape_controls, legible}
use obolus.Arming.Shown.{IsPlain, IsQuiet, legible-IsPlain}

abbrev mainnet_option : PaymentRequirements
mainnet_option = record base_option { network = "eip155:8453" }

abbrev both : List PaymentRequirements
both = base_option ∷ mainnet_option ∷ []

abbrev armed : ArmedRequirements
armed = record { requirements = both; unproven = "eip155:8453" ∷ []; diagnosis = [] }

guarded : check_arming both ("eip155:8453" ∷ []) ≡ ok armed
unfolding check_arming is_provably_testnet obolus.Arming.diagnose obolus.Arming.is_empty_value
    obolus.Prelude.trim obolus.Arming.is_placeholder_variant obolus.Prelude.same_letters near_miss
    obolus.Arming.is_non_ascii obolus.Arming.is_not_caip2
guarded = refl

unnamed : check_arming both [] ≡ err (not_provably_testnet ("eip155:8453" ∷ []) [] [])
unfolding check_arming is_provably_testnet obolus.Arming.diagnose obolus.Arming.is_empty_value
    obolus.Prelude.trim obolus.Arming.is_placeholder_variant obolus.Prelude.same_letters near_miss
    obolus.Arming.is_non_ascii obolus.Arming.is_not_caip2
unnamed = refl

testnet_named :
    check_arming (base_option ∷ []) ("eip155:84532" ∷ [])
    ≡ err (mismatch [] ("eip155:84532" ∷ []) ("eip155:84532" ∷ []) [])
unfolding check_arming is_provably_testnet obolus.Arming.advertised_from
testnet_named = refl

check_arming-guards_example :
    (armed.requirements ≡ both)
    × All (λ r. MayAdvertise ("eip155:8453" ∷ []) r.network) both
    × All
        (λ n. (is_provably_testnet n ≡ false) × (contains n ("eip155:8453" ∷ []) ≡ true))
        armed.unproven
    × All (λ id. contains id armed.unproven ≡ true) ("eip155:8453" ∷ [])
check_arming-guards_example = check_arming-guards both ("eip155:8453" ∷ []) armed guarded

two_ids : parse_arming (some "eip155:1,eip155:8453") ≡ ok ("eip155:1" ∷ "eip155:8453" ∷ [])
unfolding parse_arming obolus.Prelude.trim
two_ids = refl

parse_arming-IsFresh_example :
    (join_commas ("eip155:1" ∷ "eip155:8453" ∷ []) ≡ "eip155:1,eip155:8453")
    × IsFresh [] ("eip155:1" ∷ "eip155:8453" ∷ [])
parse_arming-IsFresh_example =
    parse_arming-IsFresh "eip155:1,eip155:8453" ("eip155:1" ∷ "eip155:8453" ∷ []) two_ids

-- A value with a line break, a quote and a Cyrillic letter in it.
shown_value :
    legible (97 ∷ 10 ∷ 34 ∷ 0x435 ∷ [])
    ≡ 34 ∷ 97 ∷ 92 ∷ 110 ∷ 92 ∷ 34 ∷ 92 ∷ 117 ∷ 123 ∷ 52 ∷ 51 ∷ 53 ∷ 125 ∷ 34 ∷ []
unfolding legible obolus.Arming.Escapes.escape_default obolus.Arming.Escapes.hex_digits
    obolus.Arming.Escapes.drop_zeros
shown_value = refl

-- A message keeps its quotes and its letters and loses the line break and the mark of direction.
shown_message :
    escape_controls (10 ∷ 34 ∷ 0x435 ∷ 0x202E ∷ [])
    ≡ 92 ∷ 110 ∷ 34 ∷ 0x435 ∷ 92 ∷ 117 ∷ 123 ∷ 50 ∷ 48 ∷ 50 ∷ 101 ∷ 125 ∷ []
unfolding escape_controls obolus.Arming.Escapes.escape_default obolus.Arming.Escapes.hex_digits
    obolus.Arming.Escapes.drop_zeros
shown_message = refl

legible-IsPlain_example :
    All IsPlain (legible (97 ∷ 10 ∷ []))
    × IsQuiet (escape_controls (97 ∷ 10 ∷ []))
    × ((escape_controls (97 ∷ 10 ∷ []) ≡ 97 ∷ 10 ∷ []) ↔ IsQuiet (97 ∷ 10 ∷ []))
legible-IsPlain_example = legible-IsPlain (97 ∷ 10 ∷ [])
