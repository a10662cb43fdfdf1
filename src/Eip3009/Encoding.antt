-- ===== src/Eip3009/Encoding.antt =====
-- The words that are hashed say what they were made of, for eip3009/src/eip712.rs and
-- eip3009/src/eip3009.rs.
use obolus.Prelude.{
  ℕ, zero, suc, ◌+◌, ◌/◌, ◌%◌, ◌≤◌, ◌≡◌, ◌∙◌, refl, ap, sym, [], ◌∷◌, ◌++◌, length, arith,
}
use obolus.Payment.Codec.{Bytes}
use obolus.Amount.{u128_max}
use obolus.Pricing.{u64_max}
use obolus.Eip3009.{
  Crypto, Authorization, be_bytes, encode_address, encode_u256, zeros, transfer_words,
}

-- What is a `u128` and a `u64`, and what is 20 bytes.
pub record IsAuthorization (a : Authorization) : Type 0 where
  pub from_20 : length a.from ≡ 20
  pub to_20 : length a.to ≡ 20
  pub value_u128 : a.value ≤ u128_max
  pub valid_after_u64 : a.valid_after ≤ u64_max
  pub valid_before_u64 : a.valid_before ≤ u64_max

-- A number of at most `n` bytes.
abbrev pub Fits : (n : ℕ) → ℕ → Type 0
Fits zero v = v ≡ 0
Fits (suc n) v = Fits n (v / 256)

u128-Fits : (v : ℕ) → v ≤ u128_max → Fits 16 v
u128-Fits v h = omega arith

pub append-injective :
    (xs ys : Bytes) {us vs : Bytes}
    → length xs ≡ length ys
    → xs ++ us ≡ ys ++ vs
    → (xs ≡ ys) × (us ≡ vs)
append-injective [] [] same e = (refl, e)
append-injective (x ∷ xs) (y ∷ ys) {us} {vs} same e =
    let rest : xs ++ us ≡ ys ++ vs = cc in
    let (heads, tails) = append-injective xs ys (omega arith) rest in
    let first : x ≡ y = cc in (rw (first, heads) refl, tails)
append-injective [] (y ∷ ys) same e = absurd (omega arith)
append-injective (x ∷ xs) [] same e = absurd (omega arith)

length-append : (xs ys : Bytes) → length (xs ++ ys) ≡ length xs + length ys
length-append [] ys = omega arith
length-append (x ∷ xs) ys = let rest = length-append xs ys in omega arith

length-be_bytes : (n v : ℕ) → length (be_bytes n v) ≡ n
unfolding be_bytes
length-be_bytes zero v = refl
length-be_bytes (suc n) v =
    let before = length-be_bytes n (v / 256) in
    let longer = length-append (be_bytes n (v / 256)) (v % 256 ∷ []) in omega arith

be_bytes-injective : (n v w : ℕ) → Fits n v → Fits n w → be_bytes n v ≡ be_bytes n w → v ≡ w
unfolding be_bytes
be_bytes-injective zero v w f g e = f ∙ sym g
be_bytes-injective (suc n) v w f g e =
    let (high, low) =
      append-injective (be_bytes n (v / 256)) (be_bytes n (w / 256))
        (length-be_bytes n (v / 256) ∙ sym (length-be_bytes n (w / 256))) e in
    let quotients = be_bytes-injective n (v / 256) (w / 256) f g high in
    let remainders : v % 256 ≡ w % 256 = cc in omega arith

pub length-encode_u256 : (v : ℕ) → length (encode_u256 v) ≡ 32
unfolding encode_u256 zeros
length-encode_u256 v = ap (λ n. 16 + n) (length-be_bytes 16 v)

pub encode_u256-injective :
    (v w : ℕ) → v ≤ u128_max → w ≤ u128_max → encode_u256 v ≡ encode_u256 w → v ≡ w
unfolding encode_u256
encode_u256-injective v w f g e =
    let (padding, digits) = append-injective (zeros 16) (zeros 16) refl e in
    be_bytes-injective 16 v w (u128-Fits v f) (u128-Fits w g) digits

pub length-encode_address : (a : Bytes) → length (encode_address a) ≡ 12 + length a
unfolding encode_address zeros
length-encode_address a = length-append (zeros 12) a

pub encode_address-injective : (a b : Bytes) → encode_address a ≡ encode_address b → a ≡ b
unfolding encode_address
encode_address-injective a b e = (append-injective (zeros 12) (zeros 12) refl e).1

pub words : (v w : ℕ) → length (encode_u256 v) ≡ length (encode_u256 w)
words v w = length-encode_u256 v ∙ sym (length-encode_u256 w)

pub alike :
    (a b : Bytes) → length a ≡ length b → length (encode_address a) ≡ length (encode_address b)
alike a b same = length-encode_address a ∙ (ap (λ n. 12 + n) same ∙ sym (length-encode_address b))

pub wide : {n : ℕ} → n ≤ u64_max → n ≤ u128_max
wide h = omega arith

module _ (crypto : Crypto) where
  -- The words of an authorization are those of no other.
  pub transfer_words-injective :
      (a b : Authorization)
      → IsAuthorization a
      → IsAuthorization b
      → transfer_words crypto a ≡ transfer_words crypto b
      → a ≡ b
  unfolding transfer_words
  transfer_words-injective a b f g e =
      let (kind, h1) = append-injective _ _ refl e in
      let (from, h2) =
        append-injective (encode_address a.from) (encode_address b.from)
          (alike a.from b.from (f.from_20 ∙ sym g.from_20)) h1 in
      let (to, h3) =
        append-injective (encode_address a.to) (encode_address b.to)
          (alike a.to b.to (f.to_20 ∙ sym g.to_20)) h2 in
      let (value, h4) =
        append-injective (encode_u256 a.value) (encode_u256 b.value) (words a.value b.value) h3 in
      let (after, h5) =
        append-injective (encode_u256 a.valid_after) (encode_u256 b.valid_after)
          (words a.valid_after b.valid_after) h4 in
      let (before, nonce) =
        append-injective (encode_u256 a.valid_before) (encode_u256 b.valid_before)
          (words a.valid_before b.valid_before) h5 in
      λ i. record {
        from = encode_address-injective a.from b.from from i;
        to = encode_address-injective a.to b.to to i;
        value = encode_u256-injective a.value b.value f.value_u128 g.value_u128 value i;
        valid_after =
            encode_u256-injective a.valid_after b.valid_after (wide f.valid_after_u64)
              (wide g.valid_after_u64) after i;
        valid_before =
            encode_u256-injective a.valid_before b.valid_before (wide f.valid_before_u64)
              (wide g.valid_before_u64) before i;
        nonce = nonce i;
      }
