-- ===== src/Access/Tests.antt =====
-- Concrete tokens against two keys.
use obolus.Prelude.{
  ◌≡◌, refl, String, not, Option, none, some, List, [], ◌∷◌, any, str_eq, if◌then◌else◌,
}
use obolus.Prelude.Results.{ok, err}
use obolus.Access.KeySet.{
  ErrorKind, Jwt, PublicKeyTokenVerifier, Validation, another, bytes_eq, invalid_signature,
  material_of, rejected, told, validation_for, verify_token, with_keys,
}
use obolus.Access.KeySet.Rotation.{is_ok, honours, verify_token-honours}
use obolus.Access.KeySet.Setup.{IsKeySet, with_keys-IsKeySet}
use obolus.Payment.Codec.{Bytes}

-- A token that is signed by the key 2, and has expired if it is `late`. Any other token is signed
-- by no key.
abbrev decode_toy : String → Bytes → Validation → Option ErrorKind
unfolding bytes_eq
decode_toy token key v =
    if not (bytes_eq key (2 ∷ []))
    then some invalid_signature
    else if str_eq token "good"
    then none
    else if str_eq token "late"
    then some (another "ExpiredSignature")
    else some invalid_signature

abbrev toy : Jwt
toy = record {
  from_ed_pem = λ pem. some pem;
  header_kid = λ token. some "old";
  decode = decode_toy;
}

abbrev rotation : List (Option String × Bytes)
rotation = (some "old", 1 ∷ []) ∷ (some "new", 2 ∷ []) ∷ []

abbrev rotating : PublicKeyTokenVerifier
rotating = record {
  keys = record { kid = some "old"; key = 1 ∷ [] } ∷ record { kid = some "new"; key = 2 ∷ [] } ∷ [];
  validation = validation_for "issuer" (some "obolus");
}

built : with_keys toy rotation "issuer" (some "obolus") ≡ ok rotating
unfolding with_keys material_of bytes_eq
built = refl

-- The name that the token gives is the other key's.
late : verify_token toy rotating "late" ≡ err (rejected (told (another "ExpiredSignature")))
unfolding verify_token decode_toy
late = refl

forged : verify_token toy rotating "forged" ≡ err (rejected (told invalid_signature))
unfolding verify_token decode_toy
forged = refl

verify_token-honours_example :
    is_ok (verify_token toy rotating "good")
    ≡ any (honours toy rotating.validation "good") rotating.keys
verify_token-honours_example = verify_token-honours toy rotating "good"

with_keys-IsKeySet_example : IsKeySet rotation (some "obolus") rotating
with_keys-IsKeySet_example = with_keys-IsKeySet toy rotation "issuer" (some "obolus") built
