-- ===== src/Account/Runs.antt =====
-- Runs of `Validate` on genesis accounts.
use base_protocol_system.Base.{
  ℕ, zero, suc, ◌≡◌, refl, ◌↔◌, Bool, true, false, pos, [], String, if◌then◌else◌, str_eq, ok, err,
}
use base_protocol_system.Account.{
  AuthSdk, GenesisAccount, validate_account, start_time_before_end_time,
}
use base_protocol_system.Account.Valid.{IsValid, validate_account_iff}

-- Coins are an amount, a base account is its address, and the empty address is refused.
abbrev sdk : AuthSdk
sdk = record {
  Coins = ℕ;
  BaseAccount = String;
  Error = Bool;
  is_zero = λ n. elim n [ zero ↦ true | suc _ ↦ false ];
  validate_base_account = λ a. if str_eq a "" then err true else ok tt;
  validate_module_account = λ a name permissions. if str_eq a name then ok tt else err false;
}

abbrev account : ℕ → ℕ → GenesisAccount sdk
account start end = record {
  base_account = "mint";
  original_vesting = 7;
  delegated_free = 0;
  delegated_vesting = 0;
  start_time = pos start;
  end_time = pos end;
  module_name = "mint";
  module_permissions = [];
}

accepted : validate_account sdk (account 3 5) ≡ ok tt
unfolding validate_account
accepted = refl

-- A start at the end is refused.
refused : validate_account sdk (account 5 5) ≡ err start_time_before_end_time
unfolding validate_account
refused = refl

validate_account_iff_example :
    (validate_account sdk (account 3 5) ≡ ok tt) ↔ IsValid sdk (account 3 5)
validate_account_iff_example = validate_account_iff sdk (account 3 5)
