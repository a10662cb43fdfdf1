-- ===== src/Devseller/Judged.antt =====
-- Which payments the development seller accepts, for `judge` of devseller/src/facilitator.rs and the
-- checks of devseller/src/verify.rs.
use obolus.Prelude.{
  ℕ, ◌<◌, ◌≡◌, ◌↔◌, ◌∙◌, refl, eq_iff, ap, sym, subst, String, true, Option, none, some, arith,
}
use obolus.Prelude.Results.{Result, ok, err, >>=-eq-ok, >>-eq-ok, ok-injective}
use obolus.Amount.{parse_u128}
use obolus.Payment.{PaymentRequirements, PaymentPayload}
use obolus.Payment.Codec.{Bytes}
use obolus.Access.KeySet.{bytes_eq}
use obolus.Eip3009.{
  Crypto, Eip3009Error, Eip712Domain, Authorization, decode_hex_array, transfer_digest,
  recover_address,
}
use obolus.Eip3009.Binding.{bytes_eq-true, bytes_eq_refl}
use obolus.Devseller.{VerifyError, ExactPayload, parse_exact_payload, or_bad_uint}
use obolus.Devseller.Verify.{
  or_refused, or_unusable_signature, check_scheme, check_network, check_payee, check_amount,
  check_window, check_signer, pay_to_of, check_terms, domain_for, verify_signature,
}
use obolus.Devseller.Modes.{verify_offline}
use obolus.Devseller.Facilitator.{payload_of, judge, judged, DevFacilitator, dev_verify}

check_scheme-ok : (got want : String) → (check_scheme got want ≡ ok tt) ↔ (got ≡ want)
check_scheme-ok got want =
    (λ h. ground (arith, eq_iff got want), λ e. ground (arith, eq_iff got want))

check_network-ok : (got want : String) → (check_network got want ≡ ok tt) ↔ (got ≡ want)
check_network-ok got want =
    (λ h. ground (arith, eq_iff got want), λ e. ground (arith, eq_iff got want))

check_amount-ok : (got want : ℕ) → (check_amount got want ≡ ok tt) ↔ (got ≡ want)
check_amount-ok got want = (λ h. ground arith, λ e. ground arith)

bytes_eq-same : {a b : Bytes} → a ≡ b → bytes_eq a b ≡ true
bytes_eq-same {a} e = subst (λ b. bytes_eq a b ≡ true) e (bytes_eq_refl a)

check_payee-ok : (got want : Bytes) → (check_payee got want ≡ ok tt) ↔ (got ≡ want)
check_payee-ok got want =
    (λ h. bytes_eq-true got want (ground arith), λ e. let same = bytes_eq-same e in rw same refl)

check_window-ok :
    (a : Authorization) (now : ℕ)
    → (check_window a now ≡ ok tt) ↔ ((a.valid_after < now) × (now < a.valid_before))
unfolding check_window
check_window-ok a now = (λ h. ground arith, λ (opened, open_still). ground arith)

or_refused-eq-ok :
    (why : VerifyError) (found : Result Eip3009Error Bytes) {a : Bytes}
    → or_refused why found ≡ ok a
    → found ≡ ok a
or_refused-eq-ok why (ok a) h = ap ok (ok-injective h)
or_refused-eq-ok why (err e) h = cc

or_bad_uint-eq-ok :
    (key : String) (found : Option ℕ) {n : ℕ} → or_bad_uint key found ≡ ok n → found ≡ some n
or_bad_uint-eq-ok key none h = cc
or_bad_uint-eq-ok key (some n) h = ap some (ok-injective h)

or_unusable_signature-eq-ok :
    (domain : Eip712Domain) (found : Result Eip3009Error Bytes) {a : Bytes}
    → or_unusable_signature domain found ≡ ok a
    → found ≡ ok a
or_unusable_signature-eq-ok domain (ok a) h = ap ok (ok-injective h)
or_unusable_signature-eq-ok domain (err e) h = cc

module _ (crypto : Crypto) where
  -- A payment for exactly what the option asks, inside its window, and signed by the payer that it
  -- names under the domain that the option gives.
  pub record IsGenuine (now : ℕ) (payment : PaymentPayload) (r : PaymentRequirements) : Type 0 where
    pub payload : ExactPayload
    pub parsed : parse_exact_payload crypto (payload_of payment) ≡ ok payload
    pub same_scheme : payment.accepted.scheme ≡ r.scheme
    pub same_network : payment.accepted.network ≡ r.network
    pub paid_to : decode_hex_array crypto 20 r.pay_to ≡ ok payload.authorization.to
    pub exact : parse_u128 r.amount ≡ some payload.authorization.value
    pub opened : payload.authorization.valid_after < now
    pub not_over : now < payload.authorization.valid_before
    pub domain : Eip712Domain
    pub offered : domain_for crypto r ≡ ok domain
    pub signed :
        recover_address crypto
          (transfer_digest crypto payload.authorization domain)
          payload.signature
        ≡ ok payload.authorization.from

  check_signer-ok :
      (domain : Eip712Domain) (expected recovered : Bytes)
      → check_signer crypto domain expected recovered ≡ ok tt
      → recovered ≡ expected
  check_signer-ok domain expected recovered h = bytes_eq-true recovered expected (ground arith)

  verify_signature-ok :
      (payload : ExactPayload) (domain : Eip712Domain)
      → verify_signature crypto payload domain ≡ ok tt
      → recover_address crypto
          (transfer_digest crypto payload.authorization domain)
          payload.signature
        ≡ ok payload.authorization.from
  unfolding verify_signature
  verify_signature-ok payload domain h =
      let (recovered, found, h1) = >>=-eq-ok (or_unusable_signature domain _) _ h in
      or_unusable_signature-eq-ok domain _ found
      ∙ ap ok (check_signer-ok domain payload.authorization.from recovered h1)

  judge-IsGenuine :
      (now : ℕ) (payment : PaymentPayload) (r : PaymentRequirements)
      → judge crypto now payment r ≡ ok tt
      → IsGenuine now payment r
  unfolding judge check_terms
  judge-IsGenuine now payment r h =
      let (payload, parsed, h1) = >>=-eq-ok (parse_exact_payload crypto (payload_of payment)) _ h in
      let (terms, h2) = >>-eq-ok (check_terms crypto payment payload r) _ h1 in
      let (timely, h3) = >>-eq-ok (check_window payload.authorization now) _ h2 in
      let (domain, offered, h4) = >>=-eq-ok (domain_for crypto r) _ h3 in
      let (scheme, t1) = >>-eq-ok (check_scheme payment.accepted.scheme r.scheme) _ terms in
      let (network, t2) = >>-eq-ok (check_network payment.accepted.network r.network) _ t1 in
      let (pay_to, decoded, t3) = >>=-eq-ok (pay_to_of crypto r) _ t2 in
      let (payee, t4) = >>-eq-ok (check_payee payload.authorization.to pay_to) _ t3 in
      let (price, priced, amount) = >>=-eq-ok (or_bad_uint "amount" (parse_u128 r.amount)) _ t4 in
      let (opened, not_over) = (check_window-ok payload.authorization now).0 timely in
      record {
        payload = payload;
        parsed = parsed;
        same_scheme = (check_scheme-ok _ _).0 scheme;
        same_network = (check_network-ok _ _).0 network;
        paid_to = or_refused-eq-ok _ _ decoded ∙ ap ok (sym ((check_payee-ok _ _).0 payee));
        exact =
            or_bad_uint-eq-ok "amount" _ priced ∙ ap some (sym ((check_amount-ok _ _).0 amount));
        opened = opened;
        not_over = not_over;
        domain = domain;
        offered = offered;
        signed = verify_signature-ok payload domain h4;
      }

  IsGenuine-judge :
      (now : ℕ) (payment : PaymentPayload) (r : PaymentRequirements)
      → IsGenuine now payment r
      → judge crypto now payment r ≡ ok tt
  unfolding judge check_terms verify_signature
  IsGenuine-judge now payment r g =
      rw
        (
          g.parsed,
          (check_scheme-ok payment.accepted.scheme r.scheme).1 g.same_scheme,
          (check_network-ok payment.accepted.network r.network).1 g.same_network,
          g.paid_to,
          bytes_eq_refl g.payload.authorization.to,
          g.exact,
          (check_amount-ok g.payload.authorization.value g.payload.authorization.value).1 refl,
          (check_window-ok g.payload.authorization now).1 (g.opened, g.not_over),
          g.offered,
          g.signed,
          bytes_eq_refl g.payload.authorization.from,
        )
        refl

  judged-ok : (found : Result VerifyError (Unit {0})) → (judged found ≡ ok tt) ↔ (found ≡ ok tt)
  judged-ok (ok tt) = (λ h. refl, λ h. refl)
  judged-ok (err why) = (λ h. cc, λ h. cc)

  -- A seller that verifies offline accepts exactly the payments that are for what it asks: for the
  -- scheme, network, recipient and amount of the option, presented strictly inside their window, and
  -- signed by the account that pays under the domain of the option.
  pub dev_verify-iff_IsGenuine :
      (f : DevFacilitator) (payment : PaymentPayload) (r : PaymentRequirements)
      → f.verify ≡ verify_offline
      → (dev_verify crypto f payment r ≡ ok tt) ↔ IsGenuine f.now payment r
  unfolding dev_verify
  dev_verify-iff_IsGenuine f payment r offline = rw offline (
    λ h. judge-IsGenuine f.now payment r ((judged-ok (judge crypto f.now payment r)).0 h),
    λ g. (judged-ok (judge crypto f.now payment r)).1 (IsGenuine-judge f.now payment r g),
  )
