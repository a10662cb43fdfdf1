-- ===== src/Payment/Codec/RoundTrip.antt =====
-- A payment that a client encodes is the payment that the gateway decodes.
use mathlib.Core.Path.{subst}
use obolus.Prelude.{
  Bool, false, if◌then◌else◌, String, ◌≡◌, refl, Option, none, some, arith, trim, and_then, is_some,
  true,
}
use obolus.Prelude.Results.{ok, err, ok_or, >>=-eq-ok, ok_or-eq-ok}
use obolus.Json.{Value, Fields, get, get_field, as_u64, as_object, object}
use obolus.Payment.{
  PaymentRequirements, PaymentPayload, new_payload, to_fields, x402_version_spoken,
}
use obolus.Payment.Codec.{
  payload_not_an_object, Engines, decode, encode_payment, decode_payment, from_envelope,
  check_version, no_accepted, untyped_accepted, no_version,
}

-- What the gateway relies on in the engines for one payment: reading gives back what was written, and
-- base64 text holds no whitespace at its ends.
pub record IsFaithful (e : Engines) (p : PaymentPayload) : Type 0 where
  pub standard-encode : e.standard (e.encode (e.to_vec p.received)) ≡ some (e.to_vec p.received)
  pub from_slice-to_vec : e.from_slice (e.to_vec p.received) ≡ some p.received
  pub trim-encode : trim (e.encode (e.to_vec p.received)) ≡ e.encode (e.to_vec p.received)
  pub typed-to_fields : e.typed (object (to_fields p.accepted)) ≡ some p.accepted

module _ (e : Engines) where
  decode-encode_payment :
      (p : PaymentPayload) → IsFaithful e p → decode e (encode_payment e p) ≡ ok p.received
  unfolding decode encode_payment
  decode-encode_payment p f = rw (f.trim-encode, f.standard-encode, f.from_slice-to_vec)

  new_payload-decodes :
      (resource : Option Value) (accepted : PaymentRequirements) (payload : Fields)
      → e.typed (object (to_fields accepted)) ≡ some accepted
      → from_envelope e (new_payload resource accepted payload).received
        ≡ ok (new_payload resource accepted payload)
  unfolding new_payload from_envelope get_field check_version
  new_payload-decodes none accepted payload f = rw f
  new_payload-decodes (some v) accepted payload f = rw f

  -- A payment that `PaymentPayload::new` builds comes back whole from its header, where the engines
  -- read back what they wrote.
  pub decode_payment-encode_payment :
      (resource : Option Value) (accepted : PaymentRequirements) (payload : Fields)
      → IsFaithful e (new_payload resource accepted payload)
      → decode_payment e (encode_payment e (new_payload resource accepted payload))
        ≡ ok (new_payload resource accepted payload)
  unfolding decode_payment
  decode_payment-encode_payment resource accepted payload f =
      rw (decode-encode_payment (new_payload resource accepted payload) f)
        (new_payload-decodes resource accepted payload (unfold new_payload in f.typed-to_fields))

  pub record IsEnvelope (p : PaymentPayload) : Type 0 where
    pub version : and_then (get "x402Version" p.received) as_u64 ≡ some x402_version_spoken
    pub option : and_then (get "accepted" p.received) e.typed ≡ some p.accepted
    pub payload : is_some (and_then (get "payload" p.received) as_object) ≡ true

  version-checked :
      (v : Value)
      → check_version v ≡ ok tt
      → and_then (get "x402Version" v) as_u64 ≡ some x402_version_spoken
  unfolding check_version
  version-checked v h =
      let (n, found, tested) =
        >>=-eq-ok (ok_or (and_then (get "x402Version" v) as_u64) no_version) _ h in
      ground (arith, ok_or-eq-ok (and_then (get "x402Version" v) as_u64) no_version found)

  accept-inversion :
      (b : Bool) {q p : PaymentPayload}
      → (if b then ok q else err payload_not_an_object) ≡ ok p
      → (b ≡ true) × (q ≡ p)
  accept-inversion true h = (refl, cc)
  accept-inversion false h = cc

  from_envelope-IsEnvelope :
      (v : Value) (p : PaymentPayload) → from_envelope e v ≡ ok p → IsEnvelope p
  unfolding from_envelope
  from_envelope-IsEnvelope v p h =
      let (u, checked, h1) = >>=-eq-ok (check_version v) _ h in
      let (named, option, h2) = >>=-eq-ok (ok_or (get "accepted" v) no_accepted) _ h1 in
      let (typed, read, h3) = >>=-eq-ok (ok_or (e.typed named) untyped_accepted) _ h2 in
      let (payload, same) = accept-inversion (is_some (and_then (get "payload" v) as_object)) h3 in
      subst IsEnvelope same (record {
        version = version-checked v checked;
        option =
            rw (ok_or-eq-ok (get "accepted" v) no_accepted option)
              (ok_or-eq-ok (e.typed named) untyped_accepted read);
        payload = payload;
      })

  -- What decodes names version 2 and an option and holds an object for its payload, and the typed
  -- view is the option of the envelope.
  pub decode_payment-IsEnvelope :
      (raw : String) (p : PaymentPayload) → decode_payment e raw ≡ ok p → IsEnvelope p
  unfolding decode_payment check_version
  decode_payment-IsEnvelope raw p h =
      let (received, read, rest) = >>=-eq-ok (decode e raw) (from_envelope e) h in
      from_envelope-IsEnvelope received p rest
