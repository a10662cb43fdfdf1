-- ===== src/Devseller/Start.antt =====
-- `main` of devseller/src/main.rs, up to the point where it serves: its guards, and a seller that is
-- ready, or the first refusal.
use obolus.Prelude.{
  ℕ, suc, String, Bool, true, false, not, ◌&&◌, Option, none, some, List, [], ◌∷◌, filter, is_some,
  str_eq, unwrap_or, if◌then◌else◌,
}
use obolus.Prelude.Results.{Result, ok, err, ◌>>=◌}
use obolus.Payment.{PaymentRequirements}
use obolus.Payment.Codec.{Bytes}
use obolus.Backends.{ollama, single}
use obolus.Arming.{ArmedRequirements, check_arming, placeholder_network}
use obolus.Gateway.{new, with_max_output_tokens}
use obolus.Gateway.Serve.{Access}
use obolus.Config.{resource_info}
use obolus.Config.Window.{select_max_output_tokens}
use obolus.Eip3009.{Crypto}
use obolus.Boot.{World, map_err, env}
use obolus.Devseller.{VerifyError}
use obolus.Devseller.Verify.{chain_id_of, domain_for, pay_to_of}
use obolus.Devseller.Modes.{DevConfig, VerifyMode, verify_offline, accept_all, reject_all, from_env}
use obolus.Devseller.Sources.{
  DevBootError, Offender, modes_refused, output_cap_refused, arming_override, not_testnet,
  on_placeholder_network, placeholder_recipient, cannot_be_paid, cannot_be_verified, open_proxy,
  gateway_refused, wants_help, is_present, or_bad_address, upstream_from, dev_env_or,
  refuse_retired, retired_vars, dev_shared_offer, dev_options,
}

-- `map(|_| ())`.
abbrev pub discard : {A : Type 0} → Result VerifyError A → Result VerifyError (Unit {0})
discard (ok _) = ok tt
discard (err why) = err why

abbrev pub noted :
    Result VerifyError (Unit {0})
    → (position : ℕ) → (network : String) → List Offender
    → List Offender
noted (ok _) position network rest = rest
noted (err why) position network rest =
    record { position = position; network = network; why = why } ∷ rest

-- `offenders`, from a position on.
abbrev pub offenders_from :
    (PaymentRequirements → Result VerifyError (Unit {0}))
    → (position : ℕ) → List PaymentRequirements
    → List Offender
offenders_from check position [] = []
offenders_from check position (r ∷ rs) =
    noted (check r) position r.network (offenders_from check (suc position) rs)

abbrev pub offenders :
    (PaymentRequirements → Result VerifyError (Unit {0})) → List PaymentRequirements → List Offender
offenders check rs = offenders_from check 1 rs

-- `if !found.is_empty() { bail!(..) }`.
abbrev pub refuse_any :
    {A : Type 0} → (List A → DevBootError) → List A → Result DevBootError (Unit {0})
refuse_any why [] = ok tt
refuse_any why (x ∷ xs) = err (why (x ∷ xs))

abbrev pub is_placeholder : PaymentRequirements → Bool
is_placeholder r = str_eq r.network placeholder_network

abbrev pub pays_placeholder : PaymentRequirements → Bool
pays_placeholder r = str_eq r.pay_to "0xTEST-PAY-TO-ADDRESS-NOT-REAL"

-- Only the recipient of an option on an EVM chain has a shape to check.
abbrev pub recipient_of :
    Result VerifyError ℕ → Result VerifyError Bytes → Result VerifyError (Unit {0})
recipient_of (err _) pay_to = ok tt
recipient_of (ok _) pay_to = discard pay_to

abbrev pub is_verify : VerifyMode → Bool
is_verify verify_offline = true
is_verify accept_all = false
is_verify (reject_all reason) = false

abbrev pub is_accept : VerifyMode → Bool
is_accept verify_offline = false
is_accept accept_all = true
is_accept (reject_all reason) = false

abbrev pub is_one : Option String → Bool
is_one none = false
is_one (some value) = str_eq value "1"

abbrev pub refuse_if : Bool → DevBootError → Result DevBootError (Unit {0})
refuse_if refused why = if refused then err why else ok tt

-- A seller that is ready to serve.
pub record DevBooted : Type 0 where
  pub addr : String
  pub dev : DevConfig
  pub upstream_url : Option String
  pub access : Access

module _ (crypto : Crypto) where
  abbrev pub check_recipient : PaymentRequirements → Result VerifyError (Unit {0})
  check_recipient r = recipient_of (chain_id_of r.network) (pay_to_of crypto r)

  abbrev pub check_verifiable : PaymentRequirements → Result VerifyError (Unit {0})
  check_verifiable r = discard (domain_for crypto r)

  abbrev pub unverifiable : VerifyMode → List PaymentRequirements → List Offender
  unverifiable mode rs = if is_verify mode then offenders check_verifiable rs else []

module _ (crypto : Crypto) (world : World) where
  -- The guards, in their order.
  unfoldable pub guard :
      (addr : String)
      → DevConfig
      → (upstream_url : Option String) → List PaymentRequirements
      → Result DevBootError ArmedRequirements
  guard addr dev upstream_url rs =
      refuse_if (is_present (world.var "OBOLUS_ALLOW_MAINNET")) arming_override >>= λ _.
      map_err not_testnet (check_arming rs []) >>= λ armed.
      refuse_any on_placeholder_network (filter is_placeholder rs) >>= λ _.
      refuse_any (cannot_be_paid (is_some (env world "OBOLUS_ACCEPTS")))
        (offenders (check_recipient crypto) rs)
      >>= λ _. refuse_any placeholder_recipient (filter pays_placeholder rs) >>= λ _.
          refuse_any cannot_be_verified (unverifiable crypto dev.verify rs) >>= λ _.
          refuse_if
            (is_some upstream_url
              && is_accept dev.verify
              && not (is_one (env world "OBOLUS_DEV_ALLOW_OPEN_PROXY")))
            (open_proxy addr)
          >>= λ _. ok armed

  -- Past the arguments.
  unfoldable pub dev_seller : Result DevBootError DevBooted
  unfolding from_env dev_shared_offer guard
  dev_seller = dev_env_or world "OBOLUS_ADDR" "127.0.0.1:8404" >>= λ raw.
      or_bad_address (world.parse_addr raw) >>= λ addr.
      map_err modes_refused (from_env (env world)) >>= λ dev.
      map_err output_cap_refused (select_max_output_tokens (env world)) >>= λ max_output_tokens.
      refuse_retired world retired_vars >>= λ _.
      upstream_from (env world "OBOLUS_UPSTREAM_URL") >>= λ upstream.
      dev_shared_offer world addr >>= λ shared.
      dev_options world (env world "OBOLUS_ACCEPTS") shared >>= λ requirements.
      guard addr dev (env world "OBOLUS_UPSTREAM_URL") requirements >>= λ armed.
      map_err gateway_refused (
        new
          (single "devseller" ollama
            (unwrap_or (env world "OBOLUS_UPSTREAM_URL") "canned://devseller") upstream)
          (resource_info shared) armed)
      >>= λ gateway. ok (record {
        addr = addr;
        dev = dev;
        upstream_url = env world "OBOLUS_UPSTREAM_URL";
        access = record {
          token_path = none;
          gateway = with_max_output_tokens max_output_tokens gateway;
        };
      })

  abbrev pub unless_help : Bool → Result DevBootError (Option DevBooted)
  unless_help true = ok none
  unless_help false = dev_seller >>= λ seller. ok (some seller)

  -- `main`: nothing is served where the arguments ask for the usage.
  unfoldable pub dev_boot : (args : List String) → Result DevBootError (Option DevBooted)
  unfolding dev_seller
  dev_boot args = wants_help args >>= unless_help
