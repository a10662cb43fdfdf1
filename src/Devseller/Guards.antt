-- ===== src/Devseller/Guards.antt =====
-- What the guards of devseller/src/main.rs leave: the options that they pass.
use obolus.Prelude.{
  ℕ, suc, ◌≡◌, ◌⊎◌, inl, inr, refl, ap, String, Bool, true, false, not, ◌&&◌, Option, none, some,
  List, [], ◌∷◌, All, All-weaken, Bool-cases, arith, eq_iff, filter, is_some,
}
use obolus.Prelude.Results.{Result, ok, err, Ensures, holds, Ensures-bind}
use obolus.Payment.{PaymentRequirements}
use obolus.Payment.Codec.{Bytes}
use obolus.Access.KeySet.Rotation.{is_ok}
use obolus.Arming.{is_provably_testnet, check_arming}
use obolus.Arming.Guard.{MayAdvertise, check_arming-guards, filter-none}
use obolus.Eip3009.{Crypto}
use obolus.Boot.{World, map_err, env}
use obolus.Boot.Offers.{map_err-eq-ok}
use obolus.Devseller.{VerifyError}
use obolus.Devseller.Verify.{chain_id_of, domain_for, pay_to_of}
use obolus.Devseller.Modes.{DevConfig, VerifyMode}
use obolus.Devseller.Sources.{
  DevBootError, Offender, arming_override, not_testnet, on_placeholder_network,
  placeholder_recipient, cannot_be_paid, cannot_be_verified, open_proxy, is_present,
}
use obolus.Devseller.Start.{
  discard, noted, offenders_from, offenders, refuse_any, refuse_if, is_placeholder,
  pays_placeholder, recipient_of, is_verify, is_accept, is_one, check_recipient, check_verifiable,
  unverifiable, guard,
}

refuse_any-eq-ok :
    {A : Type 0} (why : List A → DevBootError) (xs : List A) {u : Unit {0}}
    → refuse_any why xs ≡ ok u
    → xs ≡ []
refuse_any-eq-ok why [] h = refl
refuse_any-eq-ok why (x ∷ xs) h = cc

refuse_if-eq-ok :
    (refused : Bool) (why : DevBootError) {u : Unit {0}}
    → refuse_if refused why ≡ ok u
    → refused ≡ false
refuse_if-eq-ok false why h = refl
refuse_if-eq-ok true why h = cc

noted-none :
    (checked : Result VerifyError (Unit {0})) (position : ℕ) (network : String)
    (rest : List Offender)
    → noted checked position network rest ≡ []
    → (is_ok checked ≡ true) × (rest ≡ [])
noted-none (ok u) position network rest h = (refl, h)
noted-none (err why) position network rest h = cc

-- Where nothing offends, the check passes every option.
offenders_from-none :
    (check : PaymentRequirements → Result VerifyError (Unit {0})) (position : ℕ)
    (rs : List PaymentRequirements)
    → offenders_from check position rs ≡ []
    → All (λ r. is_ok (check r) ≡ true) rs
offenders_from-none check position [] h = tt
offenders_from-none check position (r ∷ rs) h =
    let (passed, others) = noted-none (check r) position r.network _ h in
    (passed, offenders_from-none check (suc position) rs others)

is_ok-discard : {A : Type 0} (r : Result VerifyError A) → is_ok (discard r) ≡ true → is_ok r ≡ true
is_ok-discard (ok a) h = refl
is_ok-discard (err why) h = h

recipient_of-is_ok :
    (chain : Result VerifyError ℕ) (pay_to : Result VerifyError Bytes)
    → is_ok (recipient_of chain pay_to) ≡ true
    → (is_ok chain ≡ false) ⊎ (is_ok pay_to ≡ true)
recipient_of-is_ok (err why) pay_to h = inl refl
recipient_of-is_ok (ok id) pay_to h = inr (is_ok-discard pay_to h)

MayAdvertise-none :
    (network : String) → MayAdvertise [] network → is_provably_testnet network ≡ true
MayAdvertise-none network (inl testnet) = testnet
MayAdvertise-none network (inr named) = absurd (ground arith)

is_one-eq-true : (o : Option String) → is_one o ≡ true → o ≡ some "1"
is_one-eq-true none h = absurd (ground arith)
is_one-eq-true (some value) h = ap some ((eq_iff value "1").0 h)

-- An open proxy that is not acknowledged is refused.
proxy-acknowledged :
    (url : Option String) (accepts : Bool) (ack : Option String)
    → (is_some url && accepts && not (is_one ack)) ≡ false
    → (url ≡ none) ⊎ (accepts ≡ false) ⊎ (ack ≡ some "1")
proxy-acknowledged none accepts ack h = inl refl
proxy-acknowledged (some url) false ack h = inr (inl refl)
proxy-acknowledged (some url) true ack h = inr (inr (is_one-eq-true ack (ground arith)))

module _ (crypto : Crypto) (world : World) where
  unverifiable-none :
      (mode : VerifyMode) (rs : List PaymentRequirements)
      → unverifiable crypto mode rs ≡ []
      → (is_verify mode ≡ false) ⊎ All (λ r. is_ok (domain_for crypto r) ≡ true) rs
  unverifiable-none mode rs h = elim (Bool-cases (is_verify mode)) [
    | inr other ↦ inl other
    | inl verifies ↦ inr (
        All-weaken (λ r. is_ok (check_verifiable crypto r) ≡ true)
          (λ r. is_ok (domain_for crypto r) ≡ true) rs (λ r. is_ok-discard (domain_for crypto r))
          (offenders_from-none (check_verifiable crypto) 1 rs (ground arith)))
  ]

  -- What the guards leave: `rs` is what is offered, under `dev`, before `upstream_url`.
  pub record IsGuarded (dev : DevConfig) (upstream_url : Option String)
      (rs : List PaymentRequirements) : Type 0 where
    pub unarmed : is_present (world.var "OBOLUS_ALLOW_MAINNET") ≡ false
    pub testnets : All (λ r. is_provably_testnet r.network ≡ true) rs
    pub no_placeholder : All (λ r. is_placeholder r ≡ false) rs
    pub recipients :
        All (λ r. (is_ok (chain_id_of r.network) ≡ false) ⊎ (is_ok (pay_to_of crypto r) ≡ true)) rs
    pub real_recipients : All (λ r. pays_placeholder r ≡ false) rs
    pub verifiable :
        (is_verify dev.verify ≡ false) ⊎ All (λ r. is_ok (domain_for crypto r) ≡ true) rs
    pub no_open_proxy :
        (upstream_url ≡ none)
        ⊎ (is_accept dev.verify ≡ false)
        ⊎ (env world "OBOLUS_DEV_ALLOW_OPEN_PROXY" ≡ some "1")

  pub guard-IsGuarded :
      (addr : String) (dev : DevConfig) (url : Option String) (rs : List PaymentRequirements)
      → Ensures
          (λ armed. IsGuarded dev url rs × (armed.requirements ≡ rs))
          (guard crypto world addr dev url rs)
  unfolding guard
  guard-IsGuarded addr dev url rs =
      Ensures-bind (refuse_if (is_present (world.var "OBOLUS_ALLOW_MAINNET")) arming_override)
        λ u e1. Ensures-bind (map_err not_testnet (check_arming rs [])) λ armed e2.
          Ensures-bind (refuse_any on_placeholder_network (filter is_placeholder rs)) λ u e3.
            Ensures-bind
              (refuse_any (cannot_be_paid (is_some (env world "OBOLUS_ACCEPTS")))
                (offenders (check_recipient crypto) rs))
              λ u e4.
                Ensures-bind (refuse_any placeholder_recipient (filter pays_placeholder rs)) λ u e5.
                  Ensures-bind (refuse_any cannot_be_verified (unverifiable crypto dev.verify rs))
                    λ u e6. Ensures-bind (refuse_if _ (open_proxy addr)) λ u e7.
                      let (same, advertised, unproven, used) =
                        check_arming-guards rs [] armed (map_err-eq-ok not_testnet _ e2) in
                      holds (
                        record {
                          unarmed = refuse_if-eq-ok _ arming_override e1;
                          testnets =
                              All-weaken (λ r. MayAdvertise [] r.network)
                                (λ r. is_provably_testnet r.network ≡ true) rs
                                (λ r. MayAdvertise-none r.network) advertised;
                          no_placeholder =
                              filter-none is_placeholder rs
                                (refuse_any-eq-ok on_placeholder_network _ e3);
                          recipients =
                              All-weaken (λ r. is_ok (check_recipient crypto r) ≡ true)
                                (λ r.
                                  (is_ok (chain_id_of r.network) ≡ false)
                                  ⊎ (is_ok (pay_to_of crypto r) ≡ true))
                                rs
                                (λ r.
                                  recipient_of-is_ok (chain_id_of r.network) (pay_to_of crypto r))
                                (offenders_from-none (check_recipient crypto) 1 rs (
                                  refuse_any-eq-ok
                                    (cannot_be_paid (is_some (env world "OBOLUS_ACCEPTS"))) _ e4));
                          real_recipients =
                              filter-none pays_placeholder rs
                                (refuse_any-eq-ok placeholder_recipient _ e5);
                          verifiable =
                              unverifiable-none dev.verify rs
                                (refuse_any-eq-ok cannot_be_verified _ e6);
                          no_open_proxy =
                              proxy-acknowledged url (is_accept dev.verify) _
                                (refuse_if-eq-ok _ (open_proxy addr) e7);
                        },
                        same,
                      )
