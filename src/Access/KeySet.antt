-- ===== src/Access/KeySet.antt =====
-- `PublicKeyTokenVerifier` of obolus/src/access.rs: the set of keys that a token is checked against.
-- The decoding of tokens and of PEM files is other people's code: a parameter.
pub mod Rotation
pub mod Setup
use obolus.Prelude.{
  ℕ, String, Bool, true, false, ◌&&◌, ◌||◌, not, Option, none, some, List, [], ◌∷◌, ◌++◌, any, all,
  contains, filter, is_empty, is_some, length, ltb, ◌==◌, str_eq, if◌then◌else◌,
}
use obolus.Prelude.Results.{Result, ok, err, ◌>>=◌}
use obolus.Payment.Codec.{Bytes}

abbrev pub max_keys : ℕ
max_keys = 8

-- The raw bytes of a public key, as `DecodingKey` holds them, and the name that tokens give it.
pub record VerifyingKey : Type 0 where
  pub kid : Option String
  pub key : Bytes

-- `jsonwebtoken::Validation`, in the fields that the code sets.
pub record Validation : Type 0 where
  pub algorithm : String
  pub iss : List String
  pub aud : Option (List String)
  pub validate_nbf : Bool
  pub validate_aud : Bool
  pub required_spec_claims : List String

pub record PublicKeyTokenVerifier : Type 0 where
  pub keys : List VerifyingKey
  pub validation : Validation

-- `jsonwebtoken::errors::ErrorKind`; the code tells two of them from the others.
pub data ErrorKind : Type 0 where
  invalid_signature invalid_audience : ErrorKind
  another : String → ErrorKind

-- `decode` is `none` where the token decodes and its claims can be read.
pub record Jwt : Type 0 where
  pub from_ed_pem : Bytes → Option Bytes
  pub header_kid : (token : String) → Option String
  pub decode : (token : String) → (key : Bytes) → Validation → Option ErrorKind

-- A key is described by its name, where it has one.
pub data KeyError : Type 0 where
  no_keys empty_kid : KeyError
  too_many : ℕ → KeyError
  shared_kid : String → KeyError
  repeated_material unusable : (kid : Option String) → KeyError

-- ASCII whitespace: tab, line feed, form feed, carriage return and space.
abbrev pub is_ascii_whitespace : ℕ → Bool
is_ascii_whitespace b = any (λ w. w == b) (9 ∷ 10 ∷ 12 ∷ 13 ∷ 32 ∷ [])

unfoldable pub material_of : Bytes → Bytes
material_of pem = filter (λ b. not (is_ascii_whitespace b)) pem

unfoldable pub bytes_eq : Bytes → Bytes → Bool
bytes_eq [] [] = true
bytes_eq (x ∷ xs) (y ∷ ys) = (x == y) && bytes_eq xs ys
bytes_eq _ _ = false

-- The names seen so far, after the name of one more key.
abbrev pub see_kid : (seen : List String) → Option String → Result KeyError (List String)
see_kid seen none = ok seen
see_kid seen (some kid) =
    if is_empty kid
    then err empty_kid
    else if contains kid seen
    then err (shared_kid kid)
    else ok (seen ++ (kid ∷ []))

abbrev pub or_unusable : Option String → Option Bytes → Result KeyError VerifyingKey
or_unusable kid none = err (unusable kid)
or_unusable kid (some key) = ok (record { kid = kid; key = key })

-- What is left of one round of the loop, after the name.
abbrev pub arm_key :
    Jwt → (armed : List Bytes) → Option String → Bytes → Result KeyError VerifyingKey
arm_key jwt armed kid pem =
    if any (bytes_eq (material_of pem)) armed
    then err (repeated_material kid)
    else or_unusable kid (jwt.from_ed_pem pem)

-- The loop over the keys.
unfoldable pub arm_keys :
    Jwt
    → (seen : List String) → (armed : List Bytes) → List (Option String × Bytes)
    → Result KeyError (List VerifyingKey)
arm_keys jwt seen armed [] = ok []
arm_keys jwt seen armed ((kid, pem) ∷ rest) = see_kid seen kid >>= λ seen.
    arm_key jwt armed kid pem >>= λ parsed.
    arm_keys jwt seen (armed ++ (material_of pem ∷ [])) rest >>= λ others. ok (parsed ∷ others)

abbrev pub validation_for : (issuer : String) → (audience : Option String) → Validation
validation_for issuer none = record {
  algorithm = "EdDSA";
  iss = issuer ∷ [];
  aud = none;
  validate_nbf = true;
  validate_aud = true;
  required_spec_claims = "exp" ∷ "iss" ∷ [];
}
validation_for issuer (some audience) = record {
  algorithm = "EdDSA";
  iss = issuer ∷ [];
  aud = some (audience ∷ []);
  validate_nbf = true;
  validate_aud = true;
  required_spec_claims = "exp" ∷ "iss" ∷ "aud" ∷ [];
}

abbrev pub check_count : List (Option String × Bytes) → Result KeyError (Unit {0})
check_count [] = err no_keys
check_count (k ∷ ks) =
    if ltb max_keys (length (k ∷ ks)) then err (too_many (length (k ∷ ks))) else ok tt

unfoldable pub with_keys :
    Jwt
    → List (Option String × Bytes)
    → (issuer : String) → (audience : Option String) → Result KeyError PublicKeyTokenVerifier
unfolding arm_keys
with_keys jwt keys issuer audience = check_count keys >>= λ _. arm_keys jwt [] [] keys >>= λ parsed.
    ok (record { keys = parsed; validation = validation_for issuer audience })

abbrev pub audience_enforced : Validation → Bool
audience_enforced v = is_some v.aud && (v.validate_aud && contains "aud" v.required_spec_claims)

-- Whether a key's name is the one that a token gives.
abbrev pub is_kid : (given : Option String) → (own : Option String) → Bool
is_kid none own = false
is_kid (some kid) none = false
is_kid (some kid) (some own) = str_eq kid own

abbrev pub has_kid : Option String → VerifyingKey → Bool
has_kid kid k = is_kid kid k.kid

-- The keys to try: first those that the token's header names, then the others.
unfoldable pub ordered_by : Option String → List VerifyingKey → List VerifyingKey
ordered_by kid keys = filter (has_kid kid) keys ++ filter (λ k. not (has_kid kid k)) keys

abbrev pub names_a_cause : ErrorKind → Bool
names_a_cause invalid_signature = false
names_a_cause _ = true

-- The one rejection that is reported, after one more.
abbrev pub keeping : (reported : Option ErrorKind) → ErrorKind → ErrorKind
keeping none e = e
keeping (some held) e = if names_a_cause e && not (names_a_cause held) then e else held

-- What a rejection tells: the library's text is kept but for the audience.
pub data Reason : Type 0 where
  no_audience_expected another_audience no_key_consulted : Reason
  told : ErrorKind → Reason

abbrev pub describe : ErrorKind → (enforced : Bool) → Reason
describe invalid_audience false = no_audience_expected
describe invalid_audience true = another_audience
describe kind _ = told kind

pub data VerifyError : Type 0 where
  rejected : Reason → VerifyError
  unavailable : String → VerifyError

abbrev pub rejection : Option ErrorKind → (enforced : Bool) → Reason
rejection none enforced = no_key_consulted
rejection (some kind) enforced = describe kind enforced

-- What one attempt leads to.
abbrev pub after_attempt :
    (attempt : Option ErrorKind)
    → (next : ErrorKind → Result VerifyError (Unit {0})) → Result VerifyError (Unit {0})
after_attempt none next = ok tt
after_attempt (some e) next = next e

module _ (jwt : Jwt) (v : Validation) (token : String) where
  -- The loop of `verify`.
  unfoldable pub try_keys : Option ErrorKind → List VerifyingKey → Result VerifyError (Unit {0})
  try_keys reported [] = err (rejected (rejection reported (audience_enforced v)))
  try_keys reported (k ∷ ks) =
      after_attempt (jwt.decode token k.key v) λ e. try_keys (some (keeping reported e)) ks

unfoldable pub verify_token : Jwt → PublicKeyTokenVerifier → String → Result VerifyError (Unit {0})
unfolding ordered_by try_keys
verify_token jwt verifier token =
    try_keys jwt verifier.validation token none (ordered_by (jwt.header_kid token) verifier.keys)
