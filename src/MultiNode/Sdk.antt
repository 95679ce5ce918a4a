-- ===== src/MultiNode/Sdk.antt =====
-- What cmd/bpsd/cmd/testnet_multi_node.go takes from outside the repository: the file system and the
-- paths of the platform, the keyring, the transactions, and the genesis of the SDK's modules.
use base_protocol_system.Base.{
  ℕ, ◌≡◌, ◌+◌, Bool, false, Option, none, some, List, String, ℤ, Outcome, Action,
}

-- The fields of the node's configuration that the code sets.
pub record NodeConfig (Rest : Type 0) : Type 0 where
  pub root_dir : String
  pub moniker : String
  pub rpc_listen_address : String
  pub persistent_peers : String
  pub allow_duplicate_ip : Bool
  pub p2p_listen_address : String
  pub proxy_app : String
  pub prometheus_listen_addr : String
  pub prometheus : Bool
  pub node_rest : Rest

-- The fields of the application's configuration that the code sets.
pub record AppConfig (Rest : Type 0) : Type 0 where
  pub min_gas_prices : String
  pub api_enable : Bool
  pub enable_hostname_label : Bool
  pub telemetry_enabled : Bool
  pub prometheus_retention_time : ℕ
  pub grpc_address : String
  pub api_address : String
  pub app_rest : Rest

pub record Balance (Coins : Type 0) : Type 0 where
  pub address : String
  pub coins : Coins

pub record AuthGenesis (Any Rest : Type 0) : Type 0 where
  pub accounts : List Any
  pub auth_rest : Rest

pub record BankGenesis (Coins Rest : Type 0) : Type 0 where
  pub balances : List (Balance Coins)
  pub supply : Coins
  pub bank_rest : Rest

pub record InitConfig (PubKey : Type 0) : Type 0 where
  pub chain_id : String
  pub gentxs_dir : String
  pub node_id : String
  pub pub_key : PubKey

-- `State` is the file system with the keyrings. `none` of a function is a panic, except that
-- `new_int_from_string` tells with it that a text is no number.
pub record MultiNodeSdk : Type 1 where
  pub State : Type 0
  pub Ext : Type 0
  pub Rest : Type 0
  pub Bytes : Type 0
  pub File : Type 0
  pub PubKey : Type 0
  pub Keyring : Type 0
  pub Algos : Type 0
  pub Algo : Type 0
  pub Address : Type 0
  pub Coin : Type 0
  pub Coins : Type 0
  pub Account : Type 0
  pub Any : Type 0
  pub Msg : Type 0
  pub Tx : Type 0
  pub GenState : Type 0
  pub Json : Type 0
  pub AppGenesis : Type 0
  pub Time : Type 0
  -- filepath, os and io
  pub join : List String → String
  pub base : String → String
  pub abs : String → State → Outcome Ext String
  pub rel : String → String → Outcome Ext String
  pub is_abs : String → Bool
  pub mkdir_all : String → Action State Ext (Unit {0})
  -- `none` is no error.
  pub remove_all : String → State → Option Ext × State
  pub write_os_file : String → Bytes → Action State Ext (Unit {0})
  pub open_file : String → Action State Ext File
  pub create : String → Action State Ext File
  pub copy : File → File → Action State Ext ℕ
  pub sync : File → Action State Ext (Unit {0})
  pub close : File → State → State
  -- The draw of a number below the bound, from the source that the clock seeds.
  pub intn : ℕ → Action State Ext ℕ
  pub now : State → Time
  -- the node
  pub initialize_node_validator_files : NodeConfig Rest → Action State Ext (String × PubKey)
  pub genesis_file : NodeConfig Rest → String
  pub default_app_config : AppConfig Rest
  pub write_app_config : String → AppConfig Rest → Action State Ext (Unit {0})
  pub write_node_config : String → NodeConfig Rest → Action State Ext (Unit {0})
  -- the keys
  pub new_keyring : String → String → Action State Ext Keyring
  pub supported_algorithms : Keyring → Algos
  pub new_signing_algo : String → Algos → Outcome Ext Algo
  pub generate_save_coin_key : Keyring → String → Algo → Action State Ext (Address × String)
  pub marshal_secret : String → Outcome Ext Bytes
  pub account_text : Address → String
  pub validator_text : Address → String
  -- the coins
  pub default_bond_denom : String
  pub new_int_from_string : String → Option ℤ
  pub tokens_from_consensus_power : ℕ → ℤ
  pub new_coin : String → ℤ → Option Coin
  pub sort : List Coin → Coins
  pub add : Coins → Coins → Option Coins
  -- the transactions
  pub new_base_account : Address → Account
  pub new_msg_create_validator : String → PubKey → Coin → String → Outcome Ext Msg
  pub set_msgs : Msg → Outcome Ext Tx
  pub set_memo : String → Tx → Tx
  pub sign : String → String → Keyring → String → Tx → Action State Ext Tx
  pub encode_tx : Tx → Outcome Ext Bytes
  -- the genesis
  pub default_genesis : GenState
  pub auth_genesis : GenState → Option (AuthGenesis Any Rest)
  pub set_auth_genesis : AuthGenesis Any Rest → GenState → Option GenState
  pub pack_accounts : List Account → Outcome Ext (List Any)
  pub bank_genesis : GenState → Option (BankGenesis Coins Rest)
  pub set_bank_genesis : BankGenesis Coins Rest → GenState → Option GenState
  pub sanitize_genesis_balances : List (Balance Coins) → List (Balance Coins)
  pub marshal_indent : GenState → Outcome Ext Json
  -- The chain's id, the state of the application, and the file.
  pub save_as : String → Json → String → Action State Ext (Unit {0})
  pub app_genesis_from_file : String → Action State Ext AppGenesis
  -- The configuration comes back as the call leaves it.
  pub gen_app_state_from_config :
      NodeConfig Rest → InitConfig PubKey → AppGenesis → Action State Ext (NodeConfig Rest × Json)
  pub export_genesis_file_with_time : String → String → Json → Time → Action State Ext (Unit {0})

-- A directory that was removed with no error is gone, and adding coins adds the amounts of each denomination.
pub record MultiNodeLaws (k : MultiNodeSdk) : Type 0 where
  pub there : String → k.State → Bool
  pub there-remove_all :
      (d : String) (s : k.State)
      → (k.remove_all d s).0 ≡ none
      → there d ((k.remove_all d s).1) ≡ false
  pub amount_of : k.Coins → String → ℕ
  pub amount_of-add :
      (a b c : k.Coins) (d : String)
      → k.add a b ≡ some c
      → amount_of c d ≡ amount_of a d + amount_of b d
