-- ===== src/Payment/Matching.antt =====
-- What a payment that matches an option has agreed to.
use obolus.Prelude.{ℕ, String, ◌≡◌, ◌≢◌, ◌∙◌, true, some, arith, eq_iff, Option-cases, inl, inr}
use obolus.Json.{Fields, string, number, unsigned, get_field, remove_field}
use obolus.Json.Equality.{fields_eq_iff, get_field-remove_ne}
use obolus.Payment.{
  PaymentRequirements, PaymentPayload, to_fields, accepts_object, accepted_object, is_accepted_by,
}

-- The terms of an option, as an `accepted` object spells them.
pub record HasTerms (r : PaymentRequirements) (accepted : Fields) : Type 0 where
  pub scheme : get_field "scheme" accepted ≡ some (string r.scheme)
  pub network : get_field "network" accepted ≡ some (string r.network)
  pub amount : get_field "amount" accepted ≡ some (string r.amount)
  pub asset : get_field "asset" accepted ≡ some (string r.asset)
  pub pay_to : get_field "payTo" accepted ≡ some (string r.pay_to)
  pub window :
      get_field "maxTimeoutSeconds" accepted ≡ some (number (unsigned r.max_timeout_seconds))

to_fields-HasTerms : (r : PaymentRequirements) → HasTerms r (to_fields r)
unfolding to_fields get_field
to_fields-HasTerms r = ground arith

accepts_object-same :
    (r : PaymentRequirements) (accepted : Fields)
    → accepts_object r accepted ≡ true
    → remove_field "extra" (to_fields r) ≡ remove_field "extra" accepted
unfolding accepts_object
accepts_object-same r accepted h =
    ground (
      arith,
      (fields_eq_iff (remove_field "extra" (to_fields r)) (remove_field "extra" accepted)).0,
    )

-- A key besides `extra` reads the same in both.
same_elsewhere :
    (a b : Fields) (k : String)
    → "extra" ≢ k
    → remove_field "extra" a ≡ remove_field "extra" b
    → get_field k b ≡ get_field k a
same_elsewhere a b k ne same =
    cc (get_field-remove_ne "extra" k a ne, get_field-remove_ne "extra" k b ne, same)

accepts_object-HasTerms :
    (r : PaymentRequirements) (accepted : Fields)
    → accepts_object r accepted ≡ true
    → HasTerms r accepted
accepts_object-HasTerms r accepted h =
    let same = accepts_object-same r accepted h in
    let own = to_fields-HasTerms r in
    record {
      scheme =
          same_elsewhere _ accepted "scheme" (ground (arith, eq_iff "extra" "scheme")) same
          ∙ own.scheme;
      network =
          same_elsewhere _ accepted "network" (ground (arith, eq_iff "extra" "network")) same
          ∙ own.network;
      amount =
          same_elsewhere _ accepted "amount" (ground (arith, eq_iff "extra" "amount")) same
          ∙ own.amount;
      asset =
          same_elsewhere _ accepted "asset" (ground (arith, eq_iff "extra" "asset")) same
          ∙ own.asset;
      pay_to =
          same_elsewhere _ accepted "payTo" (ground (arith, eq_iff "extra" "payTo")) same
          ∙ own.pay_to;
      window =
          same_elsewhere _ accepted "maxTimeoutSeconds"
            (ground (arith, eq_iff "extra" "maxTimeoutSeconds")) same
          ∙ own.window;
    }

-- A payment that an option accepts carries an `accepted` object whose scheme, network, amount, asset,
-- recipient and timeout are the option's.
pub is_accepted_by-HasTerms :
    (r : PaymentRequirements) (payment : PaymentPayload)
    → is_accepted_by r payment ≡ true
    → (accepted : Fields) × (accepted_object payment ≡ some accepted) × HasTerms r accepted
unfolding is_accepted_by
is_accepted_by-HasTerms r payment h = elim (Option-cases (accepted_object payment)) [
  | inl missing ↦ absurd (ground arith)
  | inr (accepted, found) ↦
      (accepted, found, accepts_object-HasTerms r accepted (rw (found, is_accepted_by) at h))
]

one_reading :
    (a b : Fields) (k : String) {s t : String}
    → a ≡ b
    → get_field k a ≡ some (string s)
    → get_field k b ≡ some (string t)
    → s ≡ t
one_reading a b k same h i = cc

one_window :
    (a b : Fields) {m n : ℕ}
    → a ≡ b
    → get_field "maxTimeoutSeconds" a ≡ some (number (unsigned m))
    → get_field "maxTimeoutSeconds" b ≡ some (number (unsigned n))
    → m ≡ n
one_window a b same h i = cc

-- Two options that accept one payment ask the same of it, but for their `extra`.
pub is_accepted_by_unique :
    (r s : PaymentRequirements) (payment : PaymentPayload)
    → is_accepted_by r payment ≡ true
    → is_accepted_by s payment ≡ true
    → (r.scheme ≡ s.scheme)
      × (r.network ≡ s.network)
      × (r.amount ≡ s.amount)
      × (r.asset ≡ s.asset)
      × (r.pay_to ≡ s.pay_to)
      × (r.max_timeout_seconds ≡ s.max_timeout_seconds)
is_accepted_by_unique r s payment hr hs =
    let (a, foundr, tr) = is_accepted_by-HasTerms r payment hr in
    let (b, founds, ts) = is_accepted_by-HasTerms s payment hs in
    let same : a ≡ b = cc in
    (
      one_reading a b "scheme" same tr.scheme ts.scheme,
      one_reading a b "network" same tr.network ts.network,
      one_reading a b "amount" same tr.amount ts.amount,
      one_reading a b "asset" same tr.asset ts.asset,
      one_reading a b "payTo" same tr.pay_to ts.pay_to,
      one_window a b same tr.window ts.window,
    )
