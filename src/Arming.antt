-- ===== src/Arming.antt =====
-- The guard of obolus/src/arming.rs over which networks a gateway may advertise.
pub mod Guard
pub mod Value
pub mod Escapes
pub mod Shown
mod Tests
use Prim.Native.Char.{Char, code}
use Prim.Native.String
use obolus.Prelude.{
  ℕ, zero, suc, ◌+◌, String, Bool, true, false, ◌&&◌, ◌||◌, not, Option, none, some, List, [], ◌∷◌,
  ◌++◌, all, any, filter, find, codes, contains, is_empty, is_some, ltb, ◌==◌, same_letters, str_eq,
  trim, if◌then◌else◌,
}
use obolus.Prelude.Results.{Result, ok, err, ◌>>=◌, ◌>>◌}
use obolus.Payment.{PaymentRequirements}

abbrev pub placeholder_network : String
placeholder_network = "test-network-not-a-real-caip2"

abbrev pub testnet_networks : List String
testnet_networks =
    "eip155:84532" ∷ "eip155:421614" ∷ "eip155:2201" ∷ "eip155:31611" ∷ "eip155:72344"
    ∷ "eip155:181228" ∷ "eip155:51" ∷ "solana:EtWTRABZaYq6iMfeYKouRu166VU2xqa1" ∷ "tvm:-3"
    ∷ "algorand:SGO1GKSzyE7IEPItTxCByw9x8FmnrCDe" ∷ "stellar:testnet" ∷ "aptos:2" ∷ "hedera:testnet"
    ∷ "keeta:1413829460" ∷ "near:testnet" ∷ "xrpl:1" ∷ []

unfoldable pub is_provably_testnet : String → Bool
is_provably_testnet network =
    str_eq network placeholder_network || contains network testnet_networks

-- The values that `diagnose` can explain. Each is a test on the value as given.
abbrev pub same_but_case : String → String → Bool
same_but_case a b = str_eq a b || same_letters (codes a) (codes b)

unfoldable pub near_miss : String → Option String
near_miss network = find (λ admitted. same_but_case (trim network) admitted) testnet_networks

unfoldable pub is_placeholder_variant : String → Bool
is_placeholder_variant network = same_but_case (trim network) placeholder_network

unfoldable pub is_non_ascii : String → Bool
is_non_ascii network = not (all (λ c. ltb c 128) (codes network))

unfoldable pub is_empty_value : String → Bool
is_empty_value network = is_empty (trim network)

unfoldable pub is_not_caip2 : String → Bool
unfolding is_placeholder_variant
is_not_caip2 network =
    not (is_empty (trim network))
    && not (is_placeholder_variant network)
    && not (any (λ c. c == 58) (codes network))

-- One clause of a diagnosis: the values it names.
pub data Clause : Type 0 where
  empties placeholders near_misses non_ascii short_names : List String → Clause
  arming_helps_none : Clause

abbrev pub clause_unless_empty : (List String → Clause) → List String → List Clause
clause_unless_empty clause [] = []
clause_unless_empty clause (n ∷ ns) = clause (n ∷ ns) ∷ []

abbrev pub closed : List Clause → List Clause
closed [] = []
closed (c ∷ cs) = (c ∷ cs) ++ (arming_helps_none ∷ [])

unfoldable pub diagnose : List String → List Clause
diagnose unproven = closed (
    clause_unless_empty empties (filter is_empty_value unproven)
    ++ clause_unless_empty placeholders (filter is_placeholder_variant unproven)
    ++ clause_unless_empty near_misses (filter (λ n. is_some (near_miss n)) unproven)
    ++ clause_unless_empty non_ascii (filter is_non_ascii unproven)
    ++ clause_unless_empty short_names (filter is_not_caip2 unproven))

abbrev pub says_nothing : List Clause → Bool
says_nothing [] = true
says_nothing (_ ∷ _) = false

unfoldable pub is_diagnosable : String → Bool
is_diagnosable network = not (says_nothing (diagnose (network ∷ [])))

unfoldable pub undiagnosed : List String → List String
undiagnosed unproven = filter (λ n. not (is_diagnosable n)) unproven

pub data ArmingValueError : Type 0 where
  set_but_empty retired_boolean_form : ArmingValueError
  empty_entry : (position : ℕ) → ArmingValueError
  duplicate : String → ArmingValueError

-- `split(',')`: at least one piece.
abbrev pub onto_first : Char → List String → List String
onto_first c [] = String.◌∷◌ c "" ∷ []
onto_first c (piece ∷ pieces) = String.◌∷◌ c piece ∷ pieces

unfoldable pub split_commas : String → List String
split_commas String.[] = "" ∷ []
split_commas (String.◌∷◌ c s) =
    let rest = split_commas s in if code c == 44 then "" ∷ rest else onto_first c rest

-- The loop over the entries; `index` counts from 0.
unfoldable pub take_entries :
    (index : ℕ) → (ids : List String) → List String → Result ArmingValueError (List String)
take_entries index ids [] = ok ids
take_entries index ids (entry ∷ entries) =
    let rest = take_entries (suc index) (ids ++ (entry ∷ [])) entries in
    if is_empty (trim entry)
    then err (empty_entry (index + 1))
    else if contains entry ids
    then err (duplicate entry)
    else rest

unfoldable pub parse_arming : Option String → Result ArmingValueError (List String)
unfolding split_commas take_entries
parse_arming none = ok []
parse_arming (some raw) =
    if is_empty (trim raw)
    then err set_but_empty
    else if str_eq (trim raw) "1"
    then err retired_boolean_form
    else take_entries 0 [] (split_commas raw)

-- `ArmedRequirements`, which only `check_arming` makes.
pub record ArmedRequirements : Type 0 where
  pub requirements : List PaymentRequirements
  pub unproven : List String
  pub diagnosis : List Clause

pub data ArmingRefusal : Type 0 where
  mismatch :
      (unadvertised : List String)
      → (already_testnet : List String) → (advertised : List String) → (unproven : List String)
      → ArmingRefusal
  not_provably_testnet :
      (networks : List String) → (diagnosis : List Clause) → (armed : List String) → ArmingRefusal

-- One round of the loop.
abbrev pub noting : (network : String) → (found : List String) → List String
noting network found =
    if not (is_provably_testnet network) && not (contains network found)
    then found ++ (network ∷ [])
    else found

-- The loop that collects the networks that are not provably testnet.
unfoldable pub unproven_from : (found : List String) → List PaymentRequirements → List String
unproven_from found [] = found
unproven_from found (r ∷ rs) = unproven_from (noting r.network found) rs

unfoldable pub advertised_from : (found : List String) → List PaymentRequirements → List String
advertised_from found [] = found
advertised_from found (r ∷ rs) =
    advertised_from (if contains r.network found then found else found ++ (r.network ∷ [])) rs

abbrev pub advertises : List PaymentRequirements → String → Bool
advertises rs id = any (λ r. str_eq r.network id) rs

-- The ids that name nothing armable, by whether the gateway advertises them.
abbrev pub stray : List String → String → Bool
stray unproven id = not (contains id unproven)

abbrev pub none_in : List String → Bool
none_in [] = true
none_in (_ ∷ _) = false

-- The verdict, from the three lists of ids that stand in the way.
abbrev pub verdict :
    List PaymentRequirements
    → (armed : List String) → (unproven : List String) → (unadvertised : List String)
    → (already_testnet : List String) → (unnamed : List String)
    → Result ArmingRefusal ArmedRequirements
verdict rs armed unproven [] [] [] = ok (record {
  requirements = rs;
  unproven = unproven;
  diagnosis = if none_in unproven then [] else diagnose unproven;
})
verdict rs armed unproven [] [] (n ∷ ns) =
    err (not_provably_testnet (n ∷ ns) (diagnose (n ∷ ns)) armed)
verdict rs armed unproven unadvertised already_testnet unnamed =
    err (mismatch unadvertised already_testnet (advertised_from [] rs) unproven)

abbrev pub check_armed :
    List PaymentRequirements
    → (armed : List String) → (unproven : List String) → Result ArmingRefusal ArmedRequirements
check_armed rs armed unproven =
    verdict rs armed unproven (filter (λ id. stray unproven id && not (advertises rs id)) armed)
      (filter (λ id. stray unproven id && advertises rs id) armed)
      (filter (λ n. not (contains n armed)) unproven)

unfoldable pub check_arming :
    List PaymentRequirements → (armed : List String) → Result ArmingRefusal ArmedRequirements
unfolding unproven_from
check_arming rs armed = check_armed rs armed (unproven_from [] rs)
