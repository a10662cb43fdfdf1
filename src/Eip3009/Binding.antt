-- ===== src/Eip3009/Binding.antt =====
-- What a signed digest stands for, for `transfer_digest` of eip3009/src/eip3009.rs.
use obolus.Prelude.{
  ◌≤◌, ◌≡◌, ◌≢◌, ◌∙◌, ◌⊎◌, inl, inr, refl, ap, sym, true, false, [], ◌∷◌, length, arith, Bool-cases,
}
use obolus.Payment.Codec.{Bytes}
use obolus.Pricing.{u64_max}
use obolus.Access.KeySet.{bytes_eq}
use obolus.Eip3009.{
  Crypto, Authorization, Eip712Domain, as_bytes, encode_string, encode_u256, domain_words,
  separator, transfer_words, digest, transfer_digest,
}
use obolus.Eip3009.Encoding.{
  IsAuthorization, append-injective, words, wide, encode_u256-injective, encode_address-injective,
  transfer_words-injective,
}

pub bytes_eq-true : (xs ys : Bytes) → bytes_eq xs ys ≡ true → xs ≡ ys
unfolding bytes_eq
bytes_eq-true [] [] h = refl
bytes_eq-true (x ∷ xs) (y ∷ ys) h =
    let head : x ≡ y = ground arith in
    let tail = bytes_eq-true xs ys (ground arith) in rw (head, tail) refl
bytes_eq-true [] (y ∷ ys) h = cc
bytes_eq-true (x ∷ xs) [] h = cc

pub bytes_eq_refl : (xs : Bytes) → bytes_eq xs xs ≡ true
unfolding bytes_eq
bytes_eq_refl [] = refl
bytes_eq_refl (x ∷ xs) = let rest = bytes_eq_refl xs in ground arith

apart : (x y : Bytes) → bytes_eq x y ≡ false → x ≢ y
apart x y differ same =
    let reflexive = bytes_eq_refl x in
    let same_test : bytes_eq x x ≡ bytes_eq x y = ap (λ z. bytes_eq x z) same in cc

pub record IsDomain (d : Eip712Domain) : Type 0 where
  pub chain_u64 : d.chain_id ≤ u64_max
  pub contract_20 : length d.verifying_contract ≡ 20

-- The domains agree, their texts by the bytes.
pub record SameDomain (d e : Eip712Domain) : Type 0 where
  pub name : as_bytes d.name ≡ as_bytes e.name
  pub version : as_bytes d.version ≡ as_bytes e.version
  pub chain_id : d.chain_id ≡ e.chain_id
  pub verifying_contract : d.verifying_contract ≡ e.verifying_contract

module _ (crypto : Crypto) where
  -- Two inputs of the hash that it takes to one.
  abbrev pub Collision : Type 0
  Collision = (x : Bytes) × (y : Bytes) × (x ≢ y) × (crypto.keccak256 x ≡ crypto.keccak256 y)

  keccak256-collides : (x y : Bytes) → crypto.keccak256 x ≡ crypto.keccak256 y → (x ≡ y) ⊎ Collision
  keccak256-collides x y e = elim (Bool-cases (bytes_eq x y)) [
    | inl same ↦ inl (bytes_eq-true x y same)
    | inr differ ↦ inr (x, y, apart x y differ, e)
  ]

  unless_collision : {A B : Type 0} → A ⊎ Collision → (A → B ⊎ Collision) → B ⊎ Collision
  unless_collision (inl a) k = k a
  unless_collision (inr c) k = inr c

  module _ (word : (b : Bytes) → length (crypto.keccak256 b) ≡ 32) where
    same_word : (x y : Bytes) → length (crypto.keccak256 x) ≡ length (crypto.keccak256 y)
    same_word x y = word x ∙ sym (word y)

    SameDomain-of :
        (d e : Eip712Domain)
        → IsDomain d
        → IsDomain e
        → domain_words crypto d ≡ domain_words crypto e
        → SameDomain d e ⊎ Collision
    unfolding domain_words
    SameDomain-of d e f g h =
        let (kind, h1) = append-injective _ _ refl h in
        let (named, h2) =
          append-injective (encode_string crypto d.name) (encode_string crypto e.name)
            (same_word (as_bytes d.name) (as_bytes e.name)) h1 in
        let (versioned, h3) =
          append-injective (encode_string crypto d.version) (encode_string crypto e.version)
            (same_word (as_bytes d.version) (as_bytes e.version)) h2 in
        let (chained, h4) =
          append-injective (encode_u256 d.chain_id) (encode_u256 e.chain_id)
            (words d.chain_id e.chain_id) h3 in
        unless_collision (keccak256-collides (as_bytes d.name) (as_bytes e.name) named) λ name.
          unless_collision (keccak256-collides (as_bytes d.version) (as_bytes e.version) versioned)
            λ version. inl (record {
              name = name;
              version = version;
              chain_id =
                  encode_u256-injective d.chain_id e.chain_id (wide f.chain_u64) (wide g.chain_u64)
                    chained;
              verifying_contract =
                  encode_address-injective d.verifying_contract e.verifying_contract h4;
            })

    -- A signature over a digest is a signature over one authorization under one domain: where two of
    -- them have the same digest they are the same, or the hash collides. The hash of anything is 32
    -- bytes.
    pub transfer_digest-binds :
        (a b : Authorization) (d e : Eip712Domain)
        → IsAuthorization a
        → IsAuthorization b
        → IsDomain d
        → IsDomain e
        → transfer_digest crypto a d ≡ transfer_digest crypto b e
        → ((a ≡ b) × SameDomain d e) ⊎ Collision
    unfolding transfer_digest digest
    transfer_digest-binds a b d e f g p q h = unless_collision (keccak256-collides _ _ h) λ signed.
        let (lead, h1) = append-injective (0x19 ∷ 0x01 ∷ []) (0x19 ∷ 0x01 ∷ []) refl signed in
        let (domains, hashes) =
          append-injective (separator crypto d) (separator crypto e)
            (same_word (domain_words crypto d) (domain_words crypto e)) h1 in
        unless_collision
          (keccak256-collides (domain_words crypto d) (domain_words crypto e) domains)
          λ domain.
            unless_collision
              (keccak256-collides (transfer_words crypto a) (transfer_words crypto b) hashes)
              λ transfer.
                unless_collision (SameDomain-of d e p q domain)
                  λ same. inl (transfer_words-injective crypto a b f g transfer, same)
