-- ===== src/Eip3009.antt =====
-- The crate of eip3009/: what a wallet signs to authorize a transfer, and who signed it, for
-- eip3009/src/lib.rs, eip3009/src/eip712.rs and eip3009/src/eip3009.rs. Keccak, secp256k1 and the
-- hex decoder are other people's code: parameters. An array of bytes is a list here.
pub mod Encoding
pub mod Binding
mod Tests
use Prim.Native.Char.{code}
use obolus.Prelude.{
  ℕ, zero, suc, ◌+◌, ◌-◌, ◌/◌, ◌%◌, String, Bool, true, false, Option, none, some, List, [], ◌∷◌,
  ◌++◌, length, leb, not, ◌==◌, ◌&&◌, ◌||◌, if◌then◌else◌,
}
use obolus.Prelude.Results.{Result, ok, err, ◌>>=◌}
use obolus.Payment.Codec.{Bytes}
use obolus.Access.KeySet.{bytes_eq}

pub data Eip3009Error : Type 0 where
  signature_length recovery_id : ℕ → Eip3009Error
  malformed unrecoverable : Eip3009Error
  bad_hex : String → Eip3009Error

pub record Eip712Domain : Type 0 where
  pub name : String
  pub version : String
  pub chain_id : ℕ
  pub verifying_contract : Bytes

pub record Authorization : Type 0 where
  pub from : Bytes
  pub to : Bytes
  pub value : ℕ
  pub valid_after : ℕ
  pub valid_before : ℕ
  pub nonce : Bytes

-- Whether the 64 bytes of `r` and `s` are a signature, and the point that it recovers: 65 bytes, the
-- tag first.
pub record Crypto : Type 0 where
  pub keccak256 : Bytes → Bytes
  pub is_signature : Bytes → Bool
  pub recover_from_prehash : (digest : Bytes) → (signature : Bytes) → (recid : ℕ) → Option Bytes
  pub hex_decode : String → Option Bytes

-- `str::as_bytes`: a text in UTF-8.
abbrev pub utf8 : ℕ → Bytes
utf8 c =
    if leb c 0x7F
    then c ∷ []
    else if leb c 0x7FF
    then (0xC0 + c / 64) ∷ (0x80 + c % 64) ∷ []
    else if leb c 0xFFFF
    then (0xE0 + c / 4096) ∷ (0x80 + (c / 64) % 64) ∷ (0x80 + c % 64) ∷ []
    else (0xF0 + c / 262144)
      ∷ (0x80 + (c / 4096) % 64)
      ∷ (0x80 + (c / 64) % 64)
      ∷ (0x80 + c % 64)
      ∷ []

unfoldable pub as_bytes : String → Bytes
as_bytes String.[] = []
as_bytes (String.◌∷◌ c s) = utf8 (code c) ++ as_bytes s

abbrev pub transfer_with_authorization_type : String
transfer_with_authorization_type =
    "TransferWithAuthorization(address from,address to,uint256 value,uint256 validAfter,uint256 validBefore,bytes32 nonce)"

abbrev pub eip712_domain_type : String
eip712_domain_type =
    "EIP712Domain(string name,string version,uint256 chainId,address verifyingContract)"

unfoldable pub zeros : ℕ → Bytes
zeros zero = []
zeros (suc n) = 0 ∷ zeros n

-- `to_be_bytes` of a number of `n` bytes.
unfoldable pub be_bytes : (n : ℕ) → ℕ → Bytes
be_bytes zero v = []
be_bytes (suc n) v = be_bytes n (v / 256) ++ (v % 256 ∷ [])

unfoldable pub encode_address : Bytes → Bytes
unfolding zeros
encode_address address = zeros 12 ++ address

unfoldable pub encode_u256 : ℕ → Bytes
unfolding zeros be_bytes
encode_u256 value = zeros 16 ++ be_bytes 16 value

unfoldable pub take : ℕ → Bytes → Bytes
take zero bytes = []
take (suc n) [] = []
take (suc n) (b ∷ bytes) = b ∷ take n bytes

unfoldable pub drop : ℕ → Bytes → Bytes
drop zero bytes = bytes
drop (suc n) [] = []
drop (suc n) (b ∷ bytes) = drop n bytes

-- The byte at an index that is in range.
abbrev pub first_byte : Bytes → ℕ
first_byte [] = 0
first_byte (b ∷ bytes) = b

-- `strip_prefix("0x").unwrap_or(value)`.
abbrev pub unprefixed : String → String
unprefixed (String.◌∷◌ c (String.◌∷◌ d s)) =
    if (code c == 48) && (code d == 120) then s else String.◌∷◌ c (String.◌∷◌ d s)
unprefixed value = value

module _ (crypto : Crypto) where
  abbrev pub encode_string : String → Bytes
  encode_string value = crypto.keccak256 (as_bytes value)

  -- What `separator` hashes.
  unfoldable pub domain_words : Eip712Domain → Bytes
  unfolding encode_u256 encode_address as_bytes
  domain_words d =
      crypto.keccak256 (as_bytes eip712_domain_type)
      ++ (encode_string d.name
          ++ (encode_string d.version
              ++ (encode_u256 d.chain_id ++ encode_address d.verifying_contract)))

  abbrev pub separator : Eip712Domain → Bytes
  separator d = crypto.keccak256 (domain_words d)

  unfoldable pub digest : (domain_separator : Bytes) → (struct_hash : Bytes) → Bytes
  digest domain_separator struct_hash =
      crypto.keccak256 (0x19 ∷ 0x01 ∷ (domain_separator ++ struct_hash))

  -- What `transfer_struct_hash` hashes.
  unfoldable pub transfer_words : Authorization → Bytes
  unfolding encode_u256 encode_address as_bytes
  transfer_words a =
      crypto.keccak256 (as_bytes transfer_with_authorization_type)
      ++ (encode_address a.from
          ++ (encode_address a.to
              ++ (encode_u256 a.value
                  ++ (encode_u256 a.valid_after ++ (encode_u256 a.valid_before ++ a.nonce)))))

  abbrev pub transfer_struct_hash : Authorization → Bytes
  transfer_struct_hash a = crypto.keccak256 (transfer_words a)

  unfoldable pub transfer_digest : Authorization → Eip712Domain → Bytes
  transfer_digest a d = digest (separator d) (transfer_struct_hash a)

  abbrev pub recovery_of : (v : ℕ) → Result Eip3009Error ℕ
  recovery_of v =
      if (v == 0) || (v == 1)
      then ok v
      else if (v == 27) || (v == 28)
      then ok (v - 27)
      else err (recovery_id v)

  abbrev pub signature_of : Bytes → Result Eip3009Error Bytes
  signature_of rs = if crypto.is_signature rs then ok rs else err malformed

  -- The low 20 bytes of the hash of a point without its tag.
  abbrev pub address_of : Option Bytes → Result Eip3009Error Bytes
  address_of none = err unrecoverable
  address_of (some point) = ok (drop 12 (crypto.keccak256 (drop 1 point)))

  unfoldable pub recover_address :
      (digest : Bytes) → (signature : Bytes) → Result Eip3009Error Bytes
  recover_address digest signature =
      if not (length signature == 65)
      then err (signature_length (length signature))
      else (recovery_of (first_byte (drop 64 signature)) >>= λ v.
          signature_of (take 64 signature) >>= λ sig.
          address_of (crypto.recover_from_prehash digest sig v))

  abbrev pub or_bad_hex : (value : String) → Option Bytes → Result Eip3009Error Bytes
  or_bad_hex value none = err (bad_hex value)
  or_bad_hex value (some bytes) = ok bytes

  unfoldable pub decode_hex : String → Result Eip3009Error Bytes
  decode_hex value = or_bad_hex value (crypto.hex_decode (unprefixed value))

  unfoldable pub decode_hex_array : (n : ℕ) → String → Result Eip3009Error Bytes
  decode_hex_array n value =
      decode_hex value >>= λ bytes. if length bytes == n then ok bytes else err (bad_hex value)

  unfoldable pub verify_transfer :
      Authorization → Eip712Domain → (signature : Bytes) → Result Eip3009Error Bool
  unfolding recover_address transfer_digest
  verify_transfer a d signature = recover_address (transfer_digest a d) signature >>= λ recovered.
      ok (bytes_eq recovered a.from)
