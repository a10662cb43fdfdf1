-- ===== src/Boot/Keys.antt =====
-- Whose keys a gateway that starts checks tokens against, for `main` of obolus/src/main.rs with
-- `with_keys` and `parse_token_keys` of obolus/src/access.rs.
use obolus.Prelude.{
  ◌≡◌, refl, ap, sym, ◌∙◌, subst, String, true, Option, none, some, List, [], ◌∷◌, ◌++◌, Any, here,
  there, any, contains, arith, Bool-cases, inl, inr,
}
use obolus.Prelude.Results.{
  Result, ok, err, Ensures, holds, fails, Ensures-bind, Ensures-eq-ok, >>=-eq-ok, >>-eq-ok,
  ok-injective,
}
use obolus.Payment.Codec.{Bytes}
use obolus.Access.KeySet.{
  VerifyingKey, Validation, PublicKeyTokenVerifier, with_keys, arm_keys, arm_key, see_kid,
  or_unusable, check_count, material_of, bytes_eq, validation_for,
}
use obolus.Access.KeySet.Rotation.{honours}
use obolus.Access.KeyFiles.{
  TokenKeyEntry, parse_token_keys, or_malformed_keys, check_some_keys, check_files,
}
use obolus.Boot.{World, map_err, env, key_files_refused, keys_refused}
use obolus.Boot.Offers.{map_err-eq-ok}
use obolus.Boot.Sources.{refuse_empty, refuse_both}
use obolus.Boot.Tokens.{
  KeySource, single_key_var, key_source, or_no_issuer, read_audience, read_pem, read_pems,
  unless_orphaned_vars, verifier_from, token_path,
}

-- The audience that a token must be for, where one is set.
abbrev pub ChecksAudience : Option String → Validation → Type 0
ChecksAudience none v = v.aud ≡ none
ChecksAudience (some audience) v =
    (v.aud ≡ some (audience ∷ []))
    × (v.validate_aud ≡ true)
    × (contains "aud" v.required_spec_claims ≡ true)

-- What a token is held to: its algorithm, its times, its issuer and its audience.
pub record IsValidation (issuer : String) (audience : Option String) (v : Validation) : Type 0 where
  pub algorithm : v.algorithm ≡ "EdDSA"
  pub issued : v.iss ≡ issuer ∷ []
  pub issuer_required : contains "iss" v.required_spec_claims ≡ true
  pub expires : contains "exp" v.required_spec_claims ≡ true
  pub not_before : v.validate_nbf ≡ true
  pub for_us : ChecksAudience audience v

validation_for-IsValidation :
    (issuer : String) (audience : Option String)
    → IsValidation issuer audience (validation_for issuer audience)
validation_for-IsValidation issuer none = record {
  algorithm = refl;
  issued = refl;
  issuer_required = refl;
  expires = refl;
  not_before = refl;
  for_us = refl;
}
validation_for-IsValidation issuer (some audience) = record {
  algorithm = refl;
  issued = refl;
  issuer_required = refl;
  expires = refl;
  not_before = refl;
  for_us = (refl, refl, refl);
}

module _ (world : World) where
  -- The files that the operator names: in OBOLUS_TOKEN_KEYS, or the one of the other variable.
  abbrev pub AreNamed :
      (keys : Option String) → (single : Option String) → List TokenKeyEntry → Type 0
  AreNamed (some raw) single entries = (world.key_entries raw ≡ ok entries) × (single ≡ none)
  AreNamed none (some path) entries = entries ≡ record { kid = none; file = path } ∷ []
  AreNamed none none entries = ⊥

  -- The key of a file.
  abbrev pub IsKeyOf : TokenKeyEntry → VerifyingKey → Type 0
  IsKeyOf entry key =
      (pem : Bytes) × (world.read_bytes entry.file ≡ some pem)
      × (world.jwt.from_ed_pem pem ≡ some key.key)
      × (key.kid ≡ entry.kid)

  abbrev pub AreKeysOf : List TokenKeyEntry → List VerifyingKey → Type 0
  AreKeysOf [] [] = Unit
  AreKeysOf (e ∷ es) (k ∷ ks) = IsKeyOf e k × AreKeysOf es ks
  AreKeysOf _ _ = ⊥

  -- A verifier that holds the keys that the operator named, and checks what the operator set.
  pub record IsOperators (verifier : PublicKeyTokenVerifier) : Type 0 where
    pub entries : List TokenKeyEntry
    pub named :
        AreNamed (env world "OBOLUS_TOKEN_KEYS") (env world "OBOLUS_TOKEN_PUBKEY_FILE") entries
    pub keys : AreKeysOf entries verifier.keys
    pub issuer : String
    pub issuer_set : env world "OBOLUS_TOKEN_ISSUER" ≡ some issuer
    pub checks : IsValidation issuer (env world "OBOLUS_TOKEN_AUDIENCE") verifier.validation

  abbrev pub IsVerifierSet : Option PublicKeyTokenVerifier → Type 0
  IsVerifierSet none = Unit
  IsVerifierSet (some verifier) = IsOperators verifier

  or_malformed_keys-eq-ok :
      (read : Result String (List TokenKeyEntry)) {entries : List TokenKeyEntry}
      → or_malformed_keys read ≡ ok entries
      → read ≡ ok entries
  or_malformed_keys-eq-ok (ok es) h = ap ok (ok-injective h)
  or_malformed_keys-eq-ok (err message) h = cc

  parse_token_keys-eq-ok :
      (raw : String) {entries : List TokenKeyEntry}
      → parse_token_keys world.key_entries raw ≡ ok entries
      → world.key_entries raw ≡ ok entries
  unfolding parse_token_keys
  parse_token_keys-eq-ok raw h =
      let (entries, read, h1) = >>=-eq-ok (or_malformed_keys (world.key_entries raw)) _ h in
      let (some_keys, h2) = >>-eq-ok (check_some_keys entries) _ h1 in
      let (files, last) = >>-eq-ok (check_files 0 entries) _ h2 in
      or_malformed_keys-eq-ok (world.key_entries raw) read ∙ ap ok (ok-injective last)

  refuse_both-eq-ok :
      (kept inert : String) (value : Option String) {u : Unit {0}}
      → refuse_both kept inert value ≡ ok u
      → value ≡ none
  refuse_both-eq-ok kept inert none h = refl
  refuse_both-eq-ok kept inert (some v) h = cc

  -- What a source of keys names.
  abbrev NamedBy : (keys : Option String) → (single : Option String) → Option KeySource → Type 0
  NamedBy keys single none = Unit
  NamedBy keys single (some (source, entries)) = AreNamed keys single entries

  key_source-NamedBy :
      (keys single : Option String) → Ensures (NamedBy keys single) (key_source world keys single)
  key_source-NamedBy (some raw) single = Ensures-bind (refuse_empty "OBOLUS_TOKEN_KEYS" raw) λ u e1.
      Ensures-bind (refuse_both "OBOLUS_TOKEN_KEYS" single_key_var single) λ w e2.
        Ensures-bind (map_err key_files_refused (parse_token_keys world.key_entries raw))
          λ entries read. holds (
            parse_token_keys-eq-ok raw (map_err-eq-ok key_files_refused _ read),
            refuse_both-eq-ok _ _ single e2,
          )
  key_source-NamedBy none (some path) =
      Ensures-bind (refuse_empty single_key_var path) λ u e1. holds refl
  key_source-NamedBy none none = holds tt

  -- The bytes of each file.
  abbrev AreRead : List TokenKeyEntry → List (Option String × Bytes) → Type 0
  AreRead [] [] = Unit
  AreRead (e ∷ es) (k ∷ ks) = (world.read_bytes e.file ≡ some k.1) × (k.0 ≡ e.kid) × AreRead es ks
  AreRead _ _ = ⊥

  read_pem-eq-ok :
      (source : String) (entry : TokenKeyEntry) (found : Option Bytes) {key : Option String × Bytes}
      → world.read_bytes entry.file ≡ found
      → read_pem world source entry found ≡ ok key
      → (world.read_bytes entry.file ≡ some key.1) × (key.0 ≡ entry.kid)
  read_pem-eq-ok source entry none e h = cc
  read_pem-eq-ok source entry (some pem) e h =
      subst (λ k. (world.read_bytes entry.file ≡ some k.1) × (k.0 ≡ entry.kid)) (ok-injective h)
        (e, refl)

  read_pems-AreRead :
      (source : String) (entries : List TokenKeyEntry)
      → Ensures (AreRead entries) (read_pems world source entries)
  unfolding read_pems
  read_pems-AreRead source [] = holds tt
  read_pems-AreRead source (e ∷ es) =
      Ensures-bind (read_pem world source e (world.read_bytes e.file)) λ k read.
        Ensures-bind (read_pems world source es) λ ks others.
          let (bytes, kid) = read_pem-eq-ok source e (world.read_bytes e.file) refl read in
          holds (
            bytes,
            kid,
            Ensures-eq-ok (read_pems world source es) (read_pems-AreRead source es) others,
          )

  -- The keys of the bytes.
  abbrev AreArmed : List (Option String × Bytes) → List VerifyingKey → Type 0
  AreArmed [] [] = Unit
  AreArmed (k ∷ ks) (v ∷ vs) =
      (world.jwt.from_ed_pem k.1 ≡ some v.key) × (v.kid ≡ k.0) × AreArmed ks vs
  AreArmed _ _ = ⊥

  or_unusable-eq-ok :
      (kid : Option String) (pem : Bytes) (read : Option Bytes) {v : VerifyingKey}
      → world.jwt.from_ed_pem pem ≡ read
      → or_unusable kid read ≡ ok v
      → (world.jwt.from_ed_pem pem ≡ some v.key) × (v.kid ≡ kid)
  or_unusable-eq-ok kid pem none e h = cc
  or_unusable-eq-ok kid pem (some key) e h =
      subst (λ v. (world.jwt.from_ed_pem pem ≡ some v.key) × (v.kid ≡ kid)) (ok-injective h)
        (e, refl)

  arm_key-eq-ok :
      (armed : List Bytes) (kid : Option String) (pem : Bytes) {v : VerifyingKey}
      → arm_key world.jwt armed kid pem ≡ ok v
      → (world.jwt.from_ed_pem pem ≡ some v.key) × (v.kid ≡ kid)
  arm_key-eq-ok armed kid pem h = elim (Bool-cases (any (bytes_eq (material_of pem)) armed)) [
    | inl again ↦ absurd (ground arith)
    | inr fresh ↦ or_unusable-eq-ok kid pem (world.jwt.from_ed_pem pem) refl (rw fresh at h)
  ]

  arm_keys-AreArmed :
      (seen : List String) (armed : List Bytes) (keys : List (Option String × Bytes))
      → Ensures (AreArmed keys) (arm_keys world.jwt seen armed keys)
  unfolding arm_keys
  arm_keys-AreArmed seen armed [] = holds tt
  arm_keys-AreArmed seen armed ((kid, pem) ∷ rest) = Ensures-bind (see_kid seen kid) λ seen e1.
      Ensures-bind (arm_key world.jwt armed kid pem) λ v e2.
        Ensures-bind (arm_keys world.jwt seen (armed ++ (material_of pem ∷ [])) rest) λ vs e3.
          let (key, named) = arm_key-eq-ok armed kid pem e2 in
          holds (
            key,
            named,
            Ensures-eq-ok (arm_keys world.jwt seen (armed ++ (material_of pem ∷ [])) rest)
                (arm_keys-AreArmed seen (armed ++ (material_of pem ∷ [])) rest) e3,
          )

  AreRead-AreArmed :
      (entries : List TokenKeyEntry) (keys : List (Option String × Bytes)) (vs : List VerifyingKey)
      → AreRead entries keys
      → AreArmed keys vs
      → AreKeysOf entries vs
  AreRead-AreArmed [] [] [] r a = tt
  AreRead-AreArmed [] [] (v ∷ vs) r a = absurd a
  AreRead-AreArmed [] (k ∷ ks) vs r a = absurd r
  AreRead-AreArmed (e ∷ es) [] vs r a = absurd r
  AreRead-AreArmed (e ∷ es) (k ∷ ks) [] r a = absurd a
  AreRead-AreArmed (e ∷ es) (k ∷ ks) (v ∷ vs) (bytes, kid, rs) (key, named, vs_of) =
      ((k.1, bytes, key, named ∙ kid), AreRead-AreArmed es ks vs rs vs_of)

  with_keys-AreArmed :
      (keys : List (Option String × Bytes)) (issuer : String) (audience : Option String)
      → Ensures
          (λ v. AreArmed keys v.keys × IsValidation issuer audience v.validation)
          (with_keys world.jwt keys issuer audience)
  unfolding with_keys
  with_keys-AreArmed keys issuer audience = Ensures-bind (check_count keys) λ u e1.
      Ensures-bind (arm_keys world.jwt [] [] keys) λ parsed e2. holds (
        Ensures-eq-ok (arm_keys world.jwt [] [] keys) (arm_keys-AreArmed [] [] keys) e2,
        validation_for-IsValidation issuer audience,
      )

  or_no_issuer-eq-ok :
      (source : String) (set : Option String) {issuer : String}
      → or_no_issuer source set ≡ ok issuer
      → set ≡ some issuer
  or_no_issuer-eq-ok source none h = cc
  or_no_issuer-eq-ok source (some issuer) h =
      let (u, last) = >>-eq-ok (refuse_empty "OBOLUS_TOKEN_ISSUER" issuer) _ h in
      ap some (ok-injective last)

  read_audience-eq-ok :
      (set : Option String) {audience : Option String}
      → read_audience set ≡ ok audience
      → set ≡ audience
  read_audience-eq-ok none h = ok-injective h
  read_audience-eq-ok (some audience) h =
      let (u, last) = >>-eq-ok (refuse_empty "OBOLUS_TOKEN_AUDIENCE" audience) _ h in
      ok-injective last

  unless_orphaned_vars-IsVerifierSet :
      (vars : List String) → Ensures IsVerifierSet (unless_orphaned_vars vars)
  unless_orphaned_vars-IsVerifierSet [] = holds tt
  unless_orphaned_vars-IsVerifierSet (v ∷ vs) = fails

  verifier_from-IsVerifierSet :
      (source : Option KeySource)
      → NamedBy (env world "OBOLUS_TOKEN_KEYS") (env world single_key_var) source
      → Ensures IsVerifierSet (verifier_from world source)
  verifier_from-IsVerifierSet none named = unless_orphaned_vars-IsVerifierSet _
  verifier_from-IsVerifierSet (some (source, entries)) named =
      Ensures-bind (or_no_issuer source (env world "OBOLUS_TOKEN_ISSUER")) λ issuer e1.
        Ensures-bind (read_audience (env world "OBOLUS_TOKEN_AUDIENCE")) λ audience e2.
          Ensures-bind (read_pems world source entries) λ keys e3.
            Ensures-bind (map_err (keys_refused source) (with_keys world.jwt keys issuer audience))
              λ verifier e4.
                let (armed, checks) =
                  Ensures-eq-ok (with_keys world.jwt keys issuer audience)
                    (with_keys-AreArmed keys issuer audience)
                    (map_err-eq-ok (keys_refused source) _ e4) in
                holds (record {
                  entries = entries;
                  named = named;
                  keys =
                      AreRead-AreArmed entries keys verifier.keys
                        (Ensures-eq-ok (read_pems world source entries)
                          (read_pems-AreRead source entries) e3)
                        armed;
                  issuer = issuer;
                  issuer_set = or_no_issuer-eq-ok source _ e1;
                  checks =
                      subst (λ a. IsValidation issuer a verifier.validation)
                        (sym (read_audience-eq-ok _ e2)) checks;
                })

  pub token_path-IsVerifierSet : Ensures IsVerifierSet (token_path world)
  unfolding token_path
  token_path-IsVerifierSet =
      Ensures-bind (key_source world (env world "OBOLUS_TOKEN_KEYS") (env world single_key_var))
        λ source e. verifier_from-IsVerifierSet source (
          Ensures-eq-ok
            (key_source world (env world "OBOLUS_TOKEN_KEYS") (env world single_key_var))
            (key_source-NamedBy _ _) e)

  -- A token that the key of a named file honours.
  abbrev pub HonouredBy : Validation → (token : String) → TokenKeyEntry → Type 0
  HonouredBy validation token entry =
      (key : VerifyingKey) × IsKeyOf entry key × (honours world.jwt validation token key ≡ true)

  pub any-HonouredBy :
      (validation : Validation) (token : String) (entries : List TokenKeyEntry)
      (keys : List VerifyingKey)
      → AreKeysOf entries keys
      → any (honours world.jwt validation token) keys ≡ true
      → Any (HonouredBy validation token) entries
  any-HonouredBy v token [] [] named h = cc
  any-HonouredBy v token [] (k ∷ ks) named h = absurd named
  any-HonouredBy v token (e ∷ es) [] named h = absurd named
  any-HonouredBy v token (e ∷ es) (k ∷ ks) named h =
      elim (Bool-cases (honours world.jwt v token k)) [
        | inl yes_k ↦ here (k, named.0, yes_k)
        | inr no_k ↦ there (any-HonouredBy v token es ks named.1 (ground arith))
      ]
