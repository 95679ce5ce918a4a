-- ===== src/InPlace.antt =====
-- cmd/bpsd/cmd/testnet.go: the command that turns the local state of a chain into a testnet with one
-- validator. `handleErr` ends the program where there is an error, which is the model's `err`.
pub mod Sdk
pub mod Funding
pub mod Clearing
pub mod Only
mod Runs
use base_protocol_system.Base.{
  ℕ, ◌≡◌, Bool, true, false, Option, none, some, List, [], ◌∷◌, String, str_eq, split, ℤ, pos, ◌-ℤ◌,
  if◌then◌else◌, Outcome, Action, ok, err, panic, ◌>>=◌, ◌>>◌, pure, read, gets, must, modify,
  dropped, for_each,
}
use Sdk.{TestValidator, TestSigningInfo, InPlaceSdk}

abbrev pub val_voting_power : ℕ
val_voting_power = 900000000000000

pub data ArgsError : Type 0 where
  new_val_addr_type new_val_pub_key_type new_operator_address_type upgrade_to_trigger_type :
      ArgsError
  invalid_home_dir : ArgsError

module _ (k : InPlaceSdk) where
  open k use {
    Opts, HexBytes, PubKey, State, Ext, Bytes, Key, Any, LegacyDec, Coins, get_new_val_addr,
    get_user_pub_key, get_new_op_addr, get_trigger_testnet_upgrade, get_accounts_to_fund, get_home,
    new_any_with_value, must_dec, staking_validator_bytes, account_bytes, power_keys,
    last_validator_keys, validators_keys, validator_queue_keys, delete, set_validator,
    set_validator_by_cons_addr, set_validator_by_power_index, set_last_validator_power,
    after_validator_created, set_validator_historical_rewards, set_validator_current_rewards,
    set_validator_accumulated_commission, set_validator_outstanding_rewards, last_block_height,
    set_validator_signing_info, bond_denom, new_coins, mint_coins, send_coins_from_mint_to_account,
  }

  pub record ValArgs : Type 0 where
    pub new_val_addr : HexBytes
    pub new_operator_address : String
    pub new_val_pub_key : PubKey
    pub accounts_to_fund : List String
    pub upgrade_to_trigger : String
    pub home_dir : String

  -- `getCommandArgs`; what it filled in before an error is not looked at.
  pub get_command_args : Opts → Outcome ArgsError ValArgs
  get_command_args opts = elim (get_new_val_addr opts) [
    | none ↦ err new_val_addr_type
    | some addr ↦ elim (get_user_pub_key opts) [
      | none ↦ err new_val_pub_key_type
      | some key ↦ elim (get_new_op_addr opts) [
        | none ↦ err new_operator_address_type
        | some operator ↦ elim (get_trigger_testnet_upgrade opts) [
          | none ↦ err upgrade_to_trigger_type
          | some upgrade ↦
              if str_eq (get_home opts) ""
              then err invalid_home_dir
              else ok (record {
                new_val_addr = addr;
                new_operator_address = operator;
                new_val_pub_key = key;
                accounts_to_fund = split (get_accounts_to_fund opts);
                upgrade_to_trigger = upgrade;
                home_dir = get_home opts;
              })
        ]
      ]
    ]
  ]

  pub new_validator : ValArgs → Any → Action State Ext (TestValidator Any LegacyDec)
  new_validator args pubkey_any = do
    shares ← must (must_dec "10000000")
    rate ← must (must_dec "0.05")
    max_rate ← must (must_dec "0.1")
    max_change_rate ← must (must_dec "0.05")
    pure (record {
      operator_address = args.new_operator_address;
      consensus_pubkey = pubkey_any;
      is_jailed = false;
      is_bonded = true;
      tokens = val_voting_power;
      delegator_shares = shares;
      moniker = "Testnet Validator";
      rate = rate;
      max_rate = max_rate;
      max_change_rate = max_change_rate;
      min_self_delegation = 1;
    })

  -- A loop that deletes the keys of an iterator.
  pub delete_all : List Key → Action State Ext (Unit {0})
  delete_all = for_each (λ key. modify (delete key))

  -- The four indices of the validators, one after the other.
  pub remove_validators : Action State Ext (Unit {0})
  remove_validators = do
    by_power ← read power_keys
    delete_all by_power
    last ← read last_validator_keys
    delete_all last
    validators ← gets validators_keys
    delete_all validators
    queue ← gets validator_queue_keys
    delete_all queue

  pub add_validator : TestValidator Any LegacyDec → Bytes → Action State Ext (Unit {0})
  add_validator new_val validator = do
    set_validator new_val
    set_validator_by_cons_addr new_val
    set_validator_by_power_index new_val
    set_last_validator_power validator 0
    after_validator_created validator

  pub init_distribution : Bytes → Action State Ext (Unit {0})
  init_distribution validator = do
    set_validator_historical_rewards validator 0 (k.no_rewards_at 1)
    set_validator_current_rewards validator (k.no_current_rewards_at 1)
    set_validator_accumulated_commission validator k.initial_commission
    set_validator_outstanding_rewards validator k.no_outstanding_rewards

  abbrev pub signing_info : ValArgs → ℤ → TestSigningInfo HexBytes
  signing_info args height = record {
    address = args.new_val_addr;
    start_height = height -ℤ pos 1;
    tombstoned = false;
  }

  -- An error of `SetValidatorSigningInfo` is dropped.
  pub init_slashing : ValArgs → Action State Ext (Unit {0})
  init_slashing args = do
    height ← gets last_block_height
    dropped (set_validator_signing_info (signing_info args height))

  -- The coins are minted before the address is decoded.
  pub fund_account : Coins → String → Action State Ext (Unit {0})
  fund_account default_coins account_str = do
    mint_coins default_coins
    account ← read (λ s. account_bytes account_str)
    send_coins_from_mint_to_account account default_coins

  pub fund_accounts : List String → Action State Ext (Unit {0})
  fund_accounts accounts = do
    denom ← read bond_denom
    default_coins ← must (new_coins denom 1000000000)
    for_each (fund_account default_coins) accounts

  -- The staking, distribution and slashing state for the new validator.
  pub install_validator :
      ValArgs → TestValidator Any LegacyDec → Bytes → Action State Ext (Unit {0})
  install_validator args new_val validator = do
    remove_validators
    add_validator new_val validator
    init_distribution validator
    init_slashing args

  pub with_validator : ValArgs → TestValidator Any LegacyDec → Action State Ext (Unit {0})
  with_validator args new_val =
      read (λ s. k.staking_validator_bytes new_val.operator_address)
      >>= install_validator args new_val

  pub with_key : ValArgs → Any → Action State Ext (Unit {0})
  with_key args pubkey_any = new_validator args pubkey_any >>= with_validator args

  pub set_up_validator : ValArgs → Action State Ext (Unit {0})
  set_up_validator args = read (λ s. k.new_any_with_value args.new_val_pub_key) >>= with_key args

  pub init_app_for_testnet : ValArgs → Action State Ext (Unit {0})
  init_app_for_testnet args = set_up_validator args >> fund_accounts args.accounts_to_fund

  -- `newTestnetApp` on the state of the application that `newApp` made; bad arguments panic.
  pub new_testnet_app : Opts → Action State Ext (Unit {0})
  new_testnet_app opts s = elim (get_command_args opts) [
    | ok args ↦ init_app_for_testnet args s
    | err _ ↦ (panic, s)
    | panic ↦ (panic, s)
  ]
