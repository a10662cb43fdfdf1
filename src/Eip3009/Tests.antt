-- ===== src/Eip3009/Tests.antt =====
-- A small authorization under a hash that adds up what it is given.
use obolus.Prelude.{
  ℕ, ◌++◌, arith, ◌+◌, ◌≡◌, ◌⊎◌, refl, true, none, some, [], ◌∷◌, length, str_eq, if◌then◌else◌,
}
use obolus.Prelude.Results.{ok, err}
use obolus.Payment.Codec.{Bytes}
use obolus.Eip3009.{
  Crypto, Authorization, Eip712Domain, zeros, be_bytes, encode_u256, recovery_id, recover_address,
  decode_hex_array, transfer_words, transfer_digest, as_bytes,
}
use obolus.Eip3009.Encoding.{IsAuthorization}
use obolus.Eip3009.Binding.{IsDomain, SameDomain, Collision, transfer_digest-binds}

abbrev sum : Bytes → ℕ
sum [] = 0
sum (b ∷ bytes) = b + sum bytes

abbrev toy : Crypto
unfolding zeros
toy = record {
  keccak256 = λ bytes. sum bytes ∷ zeros 31;
  is_signature = λ bytes. true;
  recover_from_prehash = λ digest signature recid. some (4 ∷ zeros 64);
  hex_decode = λ s. if str_eq s "00" then some (zeros 20) else none;
}

abbrev small : Authorization
unfolding zeros
small = record {
  from = zeros 20;
  to = zeros 20;
  value = 1000;
  valid_after = 0;
  valid_before = 1700000000;
  nonce = zeros 32;
}

abbrev base_sepolia : Eip712Domain
unfolding zeros
base_sepolia = record {
  name = "USDC";
  version = "2";
  chain_id = 84532;
  verifying_contract = zeros 20;
}

small-IsAuthorization : IsAuthorization small
unfolding zeros
small-IsAuthorization = record {
  from_20 = refl;
  to_20 = refl;
  value_u128 = omega arith;
  valid_after_u64 = omega arith;
  valid_before_u64 = omega arith;
}

base_sepolia-IsDomain : IsDomain base_sepolia
unfolding zeros
base_sepolia-IsDomain = record { chain_u64 = omega arith; contract_20 = refl }

one_word : encode_u256 258 ≡ zeros 30 ++ (1 ∷ 2 ∷ [])
unfolding encode_u256 zeros be_bytes
one_word = refl

utf8_text : as_bytes "é€" ≡ (0xC3 ∷ 0xA9 ∷ 0xE2 ∷ 0x82 ∷ 0xAC ∷ [])
unfolding as_bytes
utf8_text = refl

prefixed : decode_hex_array toy 20 "0x00" ≡ ok (zeros 20)
unfolding decode_hex_array zeros obolus.Eip3009.decode_hex
prefixed = refl

short_signature : recover_address toy [] (zeros 64) ≡ err (obolus.Eip3009.signature_length 64)
unfolding recover_address zeros
short_signature = refl

word : (bytes : Bytes) → length (toy.keccak256 bytes) ≡ 32
unfolding zeros
word bytes = refl

transfer_digest-binds_example :
    ((small ≡ small) × SameDomain base_sepolia base_sepolia) ⊎ Collision toy
transfer_digest-binds_example =
    transfer_digest-binds toy word small small base_sepolia base_sepolia small-IsAuthorization
      small-IsAuthorization base_sepolia-IsDomain base_sepolia-IsDomain refl
