-- ===== src/Account.antt =====
-- app/genesis_account.go: the accounts of the simulated genesis, and what `Validate` refuses.
mod Runs
pub mod Valid
use base_protocol_system.Base.{
  ◌≡◌, Bool, true, false, not, ◌&&◌, ℤ, leb_ℤ, List, String, if◌then◌else◌, str_eq, Outcome, ok,
  err, panic,
}

-- The coins and the accounts of the SDK's `types` and `x/auth/types`.
pub record AuthSdk : Type 1 where
  pub Coins : Type 0
  pub BaseAccount : Type 0
  pub Error : Type 0
  pub is_zero : Coins → Bool
  pub validate_base_account : BaseAccount → Outcome Error (Unit {0})
  pub validate_module_account : BaseAccount → String → List String → Outcome Error (Unit {0})

module _ (k : AuthSdk) where
  open k use {Coins, BaseAccount, Error, is_zero, validate_base_account, validate_module_account}

  -- Times are Unix seconds.
  pub record GenesisAccount : Type 0 where
    pub base_account : BaseAccount
    pub original_vesting : Coins
    pub delegated_free : Coins
    pub delegated_vesting : Coins
    pub start_time : ℤ
    pub end_time : ℤ
    pub module_name : String
    pub module_permissions : List String

  pub data AccountError : Type 0 where
    start_time_before_end_time : AccountError
    external : Error → AccountError

  -- A check whose error ends the validation, and what comes behind it.
  abbrev pub check :
      Outcome Error (Unit {0}) → Outcome AccountError (Unit {0}) → Outcome AccountError (Unit {0})
  check (ok _) next = next
  check (err e) next = err (external e)
  check panic next = panic

  pub validate_account : GenesisAccount → Outcome AccountError (Unit {0})
  validate_account sga =
      let base = check (validate_base_account sga.base_account) (ok tt) in
      if not (is_zero sga.original_vesting) && leb_ℤ sga.end_time sga.start_time
      then err start_time_before_end_time
      else if not (str_eq sga.module_name "")
      then check (validate_module_account sga.base_account sga.module_name sga.module_permissions)
          base
      else base
