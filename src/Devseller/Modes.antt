-- ===== src/Devseller/Modes.antt =====
-- What the development seller is told to do, for devseller/src/config.rs.
use obolus.Prelude.{ℕ, String, Option, none, some, is_empty, trim, str_eq, ◌==◌, if◌then◌else◌}
use obolus.Prelude.Results.{Result, ok, err, ◌>>=◌}
use obolus.Pricing.{u64_max}
use obolus.Config.Pricing.{parse_up_to}

pub data VerifyMode : Type 0 where
  verify_offline accept_all : VerifyMode
  reject_all : (reason : String) → VerifyMode

pub data SettleMode : Type 0 where
  succeed unsuccessful empty_receipt : SettleMode
  settle_unavailable_for settle_rejected_for : (reason : String) → SettleMode
  time_out : (secs : ℕ) → SettleMode

pub record DevConfig : Type 0 where
  pub verify : VerifyMode
  pub settle : SettleMode

-- The variable, and what is wrong with it.
pub data ConfigError : Type 0 where
  set_empty unknown_mode not_whole_seconds no_delay : (variable : String) → ConfigError

abbrev pub verify_var : String
verify_var = "OBOLUS_DEV_VERIFY"

abbrev pub settle_var : String
settle_var = "OBOLUS_DEV_SETTLE"

abbrev pub reject_reason_var : String
reject_reason_var = "OBOLUS_DEV_REJECT_REASON"

abbrev pub settle_reason_var : String
settle_reason_var = "OBOLUS_DEV_SETTLE_REASON"

abbrev pub settle_delay_var : String
settle_delay_var = "OBOLUS_DEV_SETTLE_DELAY_SECS"

abbrev pub reason_or :
    (variable : String) → (default : String) → Option String → Result ConfigError String
reason_or variable default none = ok default
reason_or variable default (some raw) =
    if is_empty (trim raw) then err (set_empty variable) else ok raw

abbrev pub or_not_whole_seconds : Option ℕ → Result ConfigError ℕ
or_not_whole_seconds none = err (not_whole_seconds settle_delay_var)
or_not_whole_seconds (some secs) = ok secs

abbrev pub read_delay : Option String → Result ConfigError ℕ
read_delay none = ok 120
read_delay (some raw) = or_not_whole_seconds (parse_up_to u64_max (trim raw))

module _ (lookup : String → Option String) where
  abbrev pub reason : (variable : String) → (default : String) → Result ConfigError String
  reason variable default = reason_or variable default (lookup variable)

  abbrev pub verify_of : Option String → Result ConfigError VerifyMode
  verify_of none = ok verify_offline
  verify_of (some raw) =
      if is_empty (trim raw)
      then err (set_empty verify_var)
      else if str_eq (trim raw) "verify"
      then ok verify_offline
      else if str_eq (trim raw) "accept"
      then ok accept_all
      else if str_eq (trim raw) "reject"
      then (reason reject_reason_var "rejected by the development seller" >>= λ why.
          ok (reject_all why))
      else err (unknown_mode verify_var)

  abbrev pub delayed : Result ConfigError SettleMode
  delayed = read_delay (lookup settle_delay_var) >>= λ secs.
      if secs == 0 then err (no_delay settle_delay_var) else ok (time_out secs)

  abbrev pub settle_of : Option String → Result ConfigError SettleMode
  settle_of none = ok succeed
  settle_of (some raw) =
      if is_empty (trim raw)
      then err (set_empty settle_var)
      else if str_eq (trim raw) "succeed"
      then ok succeed
      else if str_eq (trim raw) "unsuccessful"
      then ok unsuccessful
      else if str_eq (trim raw) "unavailable"
      then (reason settle_reason_var "settlement is unreachable" >>= λ why.
          ok (settle_unavailable_for why))
      else if str_eq (trim raw) "rejected"
      then (reason settle_reason_var "settlement was refused" >>= λ why.
          ok (settle_rejected_for why))
      else if str_eq (trim raw) "empty-receipt"
      then ok empty_receipt
      else if str_eq (trim raw) "timeout"
      then delayed
      else err (unknown_mode settle_var)

  unfoldable pub from_env : Result ConfigError DevConfig
  from_env = verify_of (lookup verify_var) >>= λ verify.
      settle_of (lookup settle_var) >>= λ settle. ok (record { verify = verify; settle = settle })
