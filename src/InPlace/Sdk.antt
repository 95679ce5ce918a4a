-- ===== src/InPlace/Sdk.antt =====
-- What cmd/bpsd/cmd/testnet.go takes from outside the repository: the options, the staking store and the
-- keepers of the application that it changes.
use base_protocol_system.Base.{
  ℕ, ◌+◌, ◌≡◌, Bool, true, false, Option, some, List, ◌∷◌, ◌++◌, String, ℤ, Outcome, Action, ok,
}

-- The fields of `stakingtypes.Validator` that the code fills in.
pub record TestValidator (Any Decimal : Type 0) : Type 0 where
  pub operator_address : String
  pub consensus_pubkey : Any
  pub is_jailed : Bool
  pub is_bonded : Bool
  pub tokens : ℕ
  pub delegator_shares : Decimal
  pub moniker : String
  pub rate : Decimal
  pub max_rate : Decimal
  pub max_change_rate : Decimal
  pub min_self_delegation : ℕ

pub record TestSigningInfo (ConsAddress : Type 0) : Type 0 where
  pub address : ConsAddress
  pub start_height : ℤ
  pub tombstoned : Bool

-- `get_…` is `appOpts.Get` with the type assertion of its key, or the cast to a string. `none` of
-- `must_dec` and of `new_coins` is a panic.
pub record InPlaceSdk : Type 1 where
  pub Opts : Type 0
  pub HexBytes : Type 0
  pub PubKey : Type 0
  pub State : Type 0
  pub Ext : Type 0
  pub Bytes : Type 0
  pub Key : Type 0
  pub Any : Type 0
  pub LegacyDec : Type 0
  pub Coins : Type 0
  pub Historical : Type 0
  pub Current : Type 0
  pub Commission : Type 0
  pub Outstanding : Type 0
  pub get_new_val_addr : Opts → Option HexBytes
  pub get_user_pub_key : Opts → Option PubKey
  pub get_new_op_addr : Opts → Option String
  pub get_trigger_testnet_upgrade : Opts → Option String
  pub get_accounts_to_fund : Opts → String
  pub get_home : Opts → String
  pub new_any_with_value : PubKey → Outcome Ext Any
  pub must_dec : String → Option LegacyDec
  pub staking_validator_bytes : String → Outcome Ext Bytes
  pub account_bytes : String → Outcome Ext Bytes
  pub power_keys : State → Outcome Ext (List Key)
  pub last_validator_keys : State → Outcome Ext (List Key)
  pub validators_keys : State → List Key
  pub validator_queue_keys : State → List Key
  pub delete : Key → State → State
  pub set_validator : TestValidator Any LegacyDec → Action State Ext (Unit {0})
  pub set_validator_by_cons_addr : TestValidator Any LegacyDec → Action State Ext (Unit {0})
  pub set_validator_by_power_index : TestValidator Any LegacyDec → Action State Ext (Unit {0})
  pub set_last_validator_power : Bytes → ℕ → Action State Ext (Unit {0})
  pub after_validator_created : Bytes → Action State Ext (Unit {0})
  pub no_rewards_at : ℕ → Historical
  pub no_current_rewards_at : ℕ → Current
  pub initial_commission : Commission
  pub no_outstanding_rewards : Outstanding
  pub set_validator_historical_rewards : Bytes → ℕ → Historical → Action State Ext (Unit {0})
  pub set_validator_current_rewards : Bytes → Current → Action State Ext (Unit {0})
  pub set_validator_accumulated_commission : Bytes → Commission → Action State Ext (Unit {0})
  pub set_validator_outstanding_rewards : Bytes → Outstanding → Action State Ext (Unit {0})
  pub last_block_height : State → ℤ
  pub set_validator_signing_info : TestSigningInfo HexBytes → Action State Ext (Unit {0})
  pub bond_denom : State → Outcome Ext String
  pub new_coins : String → ℕ → Option Coins
  pub mint_coins : Coins → Action State Ext (Unit {0})
  pub send_coins_from_mint_to_account : Bytes → Coins → Action State Ext (Unit {0})

-- The parts of the staking store that hold validators.
pub data Index : Type 0 where
  by_power last_validators validators validator_queue : Index

-- The staking store as a set of keys, of which the iterators list all of their index, and a supply that minting raises and sending keeps.
pub record InPlaceLaws (k : InPlaceSdk) : Type 0 where
  pub stored : k.Key → k.State → Bool
  pub delete_removes : (x : k.Key) (s : k.State) → stored x (k.delete x s) ≡ false
  pub delete_adds_none :
      (x y : k.Key) (s : k.State) → stored y s ≡ false → stored y (k.delete x s) ≡ false
  pub indexed : Index → k.Key → Bool
  pub power_keys_all :
      (x : k.Key) (s : k.State) (ks : List k.Key)
      → indexed by_power x ≡ true
      → stored x s ≡ true
      → k.power_keys s ≡ ok ks
      → (before after : List k.Key) × (ks ≡ before ++ (x ∷ after))
  pub last_validator_keys_all :
      (x : k.Key) (s : k.State) (ks : List k.Key)
      → indexed last_validators x ≡ true
      → stored x s ≡ true
      → k.last_validator_keys s ≡ ok ks
      → (before after : List k.Key) × (ks ≡ before ++ (x ∷ after))
  pub validators_keys_all :
      (x : k.Key) (s : k.State)
      → indexed validators x ≡ true
      → stored x s ≡ true
      → (before after : List k.Key) × (k.validators_keys s ≡ before ++ (x ∷ after))
  pub validator_queue_keys_all :
      (x : k.Key) (s : k.State)
      → indexed validator_queue x ≡ true
      → stored x s ≡ true
      → (before after : List k.Key) × (k.validator_queue_keys s ≡ before ++ (x ∷ after))
  pub supply : k.State → ℕ
  pub worth : k.Coins → ℕ
  pub worth-new_coins : (d : String) (n : ℕ) (c : k.Coins) → k.new_coins d n ≡ some c → worth c ≡ n
  pub supply-mint_coins :
      (c : k.Coins) (s t : k.State) → k.mint_coins c s ≡ (ok tt, t) → supply t ≡ supply s + worth c
  pub supply-send :
      (a : k.Bytes) (c : k.Coins) (s t : k.State)
      → k.send_coins_from_mint_to_account a c s ≡ (ok tt, t)
      → supply t ≡ supply s
