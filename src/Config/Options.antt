-- ===== src/Config/Options.antt =====
-- Which options an operator's settings come to, for `validated_option` and `parse_accepts` of
-- obolus/src/config.rs.
use text.Mathlib.Text.{starts_with}
use obolus.Prelude.{
  ◌≡◌, ◌≢◌, ◌↔◌, refl, ap, sym, ◌∙◌, subst, inl, inr, String, true, false, Option, none, some, List,
  [], ◌∷◌, arith, Bool-cases, is_empty, is_some, trim,
}
use obolus.Prelude.Results.{Result, ok, err, >>=-eq-ok, >>-eq-ok, ok-injective}
use obolus.Amount.{parse_u128, validate_atomic_amount}
use obolus.Json.{Fields, Value, object}
use obolus.Payment.{PaymentRequirements}
use obolus.Payment.Transfer.{TransferRefusal, unsupported_transfer}
use obolus.Config.{
  AcceptEntry, SharedOffer, EntryDefect, evm_namespace, has_text, domain_text, check_domain,
  refuse_blank, or_bad_amount, check_evm, or_not_run, exact_option, validated_option, in_entry,
  extra_value, priced_entry, entry_option, entry_options, parse_accepts, check_entries,
  or_malformed,
}

-- The `extra` of an option is the object that was set, if one was.
abbrev pub IsExtra : Option Fields → Option Value → Type 0
IsExtra none extra = extra ≡ none
IsExtra (some fields) extra = extra ≡ some (object fields)

-- An option that says what was set, field by field.
pub record IsOptionFor (network : String) (asset : String) (pay_to : String) (amount : String)
    (extra : Option Fields) (shared : SharedOffer) (r : PaymentRequirements) : Type 0 where
  pub scheme : r.scheme ≡ "exact"
  pub network_kept : r.network ≡ network
  pub asset_kept : r.asset ≡ asset
  pub pay_to_kept : r.pay_to ≡ pay_to
  pub amount_kept : r.amount ≡ amount
  pub window : r.max_timeout_seconds ≡ shared.max_timeout_seconds
  pub extra_kept : IsExtra extra r.extra

-- What the checks of an option ask of it: nothing is blank, the amount reads as a `u128`, an EVM
-- option holds its token's domain, and the gateway runs the transfer.
pub record IsUsable (network : String) (asset : String) (pay_to : String) (amount : String)
    (extra : Option Fields) (r : PaymentRequirements) : Type 0 where
  pub network_set : is_empty (trim network) ≡ false
  pub asset_set : is_empty (trim asset) ≡ false
  pub pay_to_set : is_empty (trim pay_to) ≡ false
  pub amount_read : is_some (parse_u128 amount) ≡ true
  pub domain_name :
      starts_with network evm_namespace ≡ true → has_text (domain_text extra "name") ≡ true
  pub domain_version :
      starts_with network evm_namespace ≡ true → has_text (domain_text extra "version") ≡ true
  pub transfer_run : unsupported_transfer r ≡ none

extra_value-IsExtra : (extra : Option Fields) → IsExtra extra (extra_value extra)
extra_value-IsExtra none = refl
extra_value-IsExtra (some fields) = refl

IsExtra-eq :
    (extra : Option Fields) (got : Option Value) → IsExtra extra got → extra_value extra ≡ got
IsExtra-eq none got e = sym e
IsExtra-eq (some fields) got e = sym e

exact_option-IsOptionFor :
    (network asset pay_to amount : String) (extra : Option Fields) (shared : SharedOffer)
    → IsOptionFor network asset pay_to amount extra shared
        (exact_option network asset pay_to amount extra shared)
exact_option-IsOptionFor network asset pay_to amount extra shared = record {
  scheme = refl;
  network_kept = refl;
  asset_kept = refl;
  pay_to_kept = refl;
  amount_kept = refl;
  window = refl;
  extra_kept = extra_value-IsExtra extra;
}

-- The fields are all there is to an option.
IsOptionFor-eq :
    (network asset pay_to amount : String) (extra : Option Fields) (shared : SharedOffer)
    (r : PaymentRequirements)
    → IsOptionFor network asset pay_to amount extra shared r
    → exact_option network asset pay_to amount extra shared ≡ r
IsOptionFor-eq network asset pay_to amount extra shared r f = λ i. record {
  scheme = sym f.scheme i;
  network = sym f.network_kept i;
  amount = sym f.amount_kept i;
  asset = sym f.asset_kept i;
  pay_to = sym f.pay_to_kept i;
  max_timeout_seconds = sym f.window i;
  extra = IsExtra-eq extra r.extra f.extra_kept i;
}

refuse_blank-eq-ok :
    (s : String) (d : EntryDefect) {u : Unit {0}}
    → refuse_blank s d ≡ ok u
    → is_empty (trim s) ≡ false
refuse_blank-eq-ok s d h = ground arith

or_bad_amount-eq-ok :
    (amount : String) {read : String}
    → or_bad_amount (validate_atomic_amount amount) ≡ ok read
    → (is_some (parse_u128 amount) ≡ true) × (amount ≡ read)
unfolding validate_atomic_amount
or_bad_amount-eq-ok amount h = ground arith

or_bad_amount-ok :
    (amount : String)
    → is_some (parse_u128 amount) ≡ true
    → or_bad_amount (validate_atomic_amount amount) ≡ ok amount
unfolding validate_atomic_amount
or_bad_amount-ok amount h = ground arith

or_not_run-eq-ok :
    (option : PaymentRequirements) (refusal : Option TransferRefusal) {r : PaymentRequirements}
    → or_not_run option refusal ≡ ok r
    → (option ≡ r) × (refusal ≡ none)
or_not_run-eq-ok option none h = (cc, refl)
or_not_run-eq-ok option (some refusal) h = cc

check_evm-eq-ok :
    (network : String) (extra : Option Fields) {u : Unit {0}}
    → check_evm network extra ≡ ok u
    → starts_with network evm_namespace ≡ true
    → (has_text (domain_text extra "name") ≡ true) × (has_text (domain_text extra "version") ≡ true)
unfolding check_domain
check_evm-eq-ok network extra h evm = ground arith

module _ (network asset pay_to amount : String) (extra : Option Fields) (shared : SharedOffer) where
  validated_option-inverts :
      {r : PaymentRequirements}
      → validated_option network asset pay_to amount extra shared ≡ ok r
      → IsOptionFor network asset pay_to amount extra shared r
        × IsUsable network asset pay_to amount extra r
  unfolding validated_option
  validated_option-inverts {r} h =
      let (named, h1) = >>-eq-ok (refuse_blank network _) _ h in
      let (paid_in, h2) = >>-eq-ok (refuse_blank asset _) _ h1 in
      let (paid_to, h3) = >>-eq-ok (refuse_blank pay_to _) _ h2 in
      let (read, priced, h4) = >>=-eq-ok (or_bad_amount (validate_atomic_amount amount)) _ h3 in
      let (counts, same) = or_bad_amount-eq-ok amount priced in
      let (evm, h5) = >>-eq-ok (check_evm network extra) _ h4 in
      let (option, run) =
        or_not_run-eq-ok (exact_option network asset pay_to read extra shared) _ h5 in
      (
        subst (IsOptionFor network asset pay_to amount extra shared)
            (ap (λ a. exact_option network asset pay_to a extra shared) same ∙ option)
            (exact_option-IsOptionFor network asset pay_to amount extra shared),
        record {
          network_set = refuse_blank-eq-ok network _ named;
          asset_set = refuse_blank-eq-ok asset _ paid_in;
          pay_to_set = refuse_blank-eq-ok pay_to _ paid_to;
          amount_read = counts;
          domain_name = λ e. (check_evm-eq-ok network extra evm e).0;
          domain_version = λ e. (check_evm-eq-ok network extra evm e).1;
          transfer_run = subst (λ o. unsupported_transfer o ≡ none) option run;
        },
      )

  check_evm-ok :
      {r : PaymentRequirements}
      → IsUsable network asset pay_to amount extra r
      → check_evm network extra ≡ ok tt
  unfolding check_domain
  check_evm-ok u = elim (Bool-cases (starts_with network evm_namespace)) [
    | inl e ↦ rw (e, u.domain_name e, u.domain_version e) refl
    | inr e ↦ rw e refl
  ]

  validated_option-accepts :
      IsUsable network asset pay_to amount extra
        (exact_option network asset pay_to amount extra shared)
      → validated_option network asset pay_to amount extra shared
        ≡ ok (exact_option network asset pay_to amount extra shared)
  unfolding validated_option
  validated_option-accepts u =
      rw
        (
          u.network_set,
          u.asset_set,
          u.pay_to_set,
          or_bad_amount-ok amount u.amount_read,
          check_evm-ok u,
          u.transfer_run,
        )
        refl

  -- An option is advertised exactly where neither its network, its asset nor its recipient is blank,
  -- its amount reads as a `u128` (a leading plus included), its `extra` holds the token's domain if it
  -- is on an EVM chain, and the gateway runs its transfer; and then each of its fields is what the
  -- operator set, not trimmed or rewritten, under the scheme `exact`.
  pub validated_option-iff_IsUsable :
      (r : PaymentRequirements)
      → (validated_option network asset pay_to amount extra shared ≡ ok r) ↔ (
          IsOptionFor network asset pay_to amount extra shared r
          × IsUsable network asset pay_to amount extra r)
  validated_option-iff_IsUsable r = (
    validated_option-inverts,
    λ (says, usable).
        let same = IsOptionFor-eq network asset pay_to amount extra shared r says in
        validated_option-accepts
          (subst (IsUsable network asset pay_to amount extra) (sym same) usable)
        ∙ ap ok same,
  )

-- What an entry comes to: it prices itself by `amount` alone, and its option is usable.
pub record IsEntryOption (shared : SharedOffer) (entry : AcceptEntry) (r : PaymentRequirements)
    : Type 0 where
  pub v2 : entry.max_amount_required ≡ false
  pub amount : String
  pub priced : entry.amount ≡ some amount
  pub as_set : IsOptionFor entry.network entry.asset entry.pay_to amount entry.extra shared r
  pub usable : IsUsable entry.network entry.asset entry.pay_to amount entry.extra r

-- The options stand in the order of their entries, each for its own.
abbrev pub AreEntryOptions : SharedOffer → List AcceptEntry → List PaymentRequirements → Type 0
AreEntryOptions shared [] [] = Unit
AreEntryOptions shared (e ∷ es) (r ∷ rs) = IsEntryOption shared e r × AreEntryOptions shared es rs
AreEntryOptions shared _ _ = ⊥

check_entries-ne :
    (entries : List AcceptEntry) {u : Unit {0}} → check_entries entries ≡ ok u → entries ≢ []
check_entries-ne [] h = cc
check_entries-ne (e ∷ es) h = λ same. cc

module _ (shared : SharedOffer) where
  in_entry-eq-ok :
      (network : String) (found : Result EntryDefect PaymentRequirements) {r : PaymentRequirements}
      → in_entry network found ≡ ok r
      → found ≡ ok r
  in_entry-eq-ok network (ok option) h = ground arith
  in_entry-eq-ok network (err d) h = cc

  priced_entry-eq-ok :
      (entry : AcceptEntry) (amount : Option String) {r : PaymentRequirements}
      → entry.max_amount_required ≡ false
      → entry.amount ≡ amount
      → priced_entry shared entry amount ≡ ok r
      → IsEntryOption shared entry r
  priced_entry-eq-ok entry none v2 e h = cc
  priced_entry-eq-ok entry (some amount) v2 e h =
      let (as_set, usable) =
        validated_option-inverts entry.network entry.asset entry.pay_to amount entry.extra shared
          (in_entry-eq-ok entry.network _ h) in
      record { v2 = v2; amount = amount; priced = e; as_set = as_set; usable = usable }

  entry_option-eq-ok :
      (entry : AcceptEntry) {r : PaymentRequirements}
      → entry_option shared entry ≡ ok r
      → IsEntryOption shared entry r
  entry_option-eq-ok entry h = elim (Bool-cases entry.max_amount_required) [
    | inl e ↦ absurd (ground arith)
    | inr e ↦ priced_entry-eq-ok entry entry.amount e refl (ground arith)
  ]

  entry_options-AreEntryOptions :
      (entries : List AcceptEntry) {rs : List PaymentRequirements}
      → entry_options shared entries ≡ ok rs
      → AreEntryOptions shared entries rs
  unfolding entry_options
  entry_options-AreEntryOptions [] h = subst (AreEntryOptions shared []) (ok-injective h) tt
  entry_options-AreEntryOptions (e ∷ es) h =
      let (r, one, h1) = >>=-eq-ok (entry_option shared e) _ h in
      let (rs, others, h2) = >>=-eq-ok (entry_options shared es) _ h1 in
      subst (AreEntryOptions shared (e ∷ es)) (ok-injective h2)
        (entry_option-eq-ok e one, entry_options-AreEntryOptions es others)

  or_malformed-eq-ok :
      (found : Result String (List AcceptEntry)) {entries : List AcceptEntry}
      → or_malformed found ≡ ok entries
      → found ≡ ok entries
  or_malformed-eq-ok (ok es) h = ground arith
  or_malformed-eq-ok (err m) h = cc

  -- A list of accepts that is read advertises one option for each of its entries, in their order, and
  -- has at least one. Each is priced by `amount`, which reads as a `u128` (a leading plus included);
  -- each field of it is what its entry says; its network, asset and recipient are not blank, its
  -- `extra` holds the token's domain on an EVM chain, and the gateway runs its transfer.
  pub parse_accepts-AreEntryOptions :
      (from_str : String → Result String (List AcceptEntry)) (raw : String)
      {rs : List PaymentRequirements}
      → parse_accepts from_str raw shared ≡ ok rs
      → (entries : List AcceptEntry) × (from_str raw ≡ ok entries)
        × (entries ≢ [])
        × AreEntryOptions shared entries rs
  unfolding parse_accepts
  parse_accepts-AreEntryOptions from_str raw h =
      let (entries, read, h1) = >>=-eq-ok (or_malformed (from_str raw)) _ h in
      let (some_entry, h2) = >>-eq-ok (check_entries entries) _ h1 in
      (
        entries,
        or_malformed-eq-ok (from_str raw) read,
        check_entries-ne entries some_entry,
        entry_options-AreEntryOptions entries h2,
      )
